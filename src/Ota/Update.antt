-- ===== src/Ota/Update.antt =====
-- `ota_update` of jni/hidserv.c as a machine: a step for each stretch of code between two labels or
-- sleeps. The reading thread's rounds come between the steps, in any order.
pub mod State
pub mod Start
pub mod Command
pub mod Steps
pub mod Copy
pub mod Noted
pub mod Begin
pub mod Defined
pub mod Next
pub mod Keeps
pub mod Late
pub mod Written
pub mod Transcript
pub mod Order
pub mod Packets
pub mod Sender
pub mod Number
pub mod Said
pub mod Hearing
pub mod Refines
pub mod StartLaws
pub mod Wire
pub mod Promise
pub mod Decided
pub mod Cause
pub mod Reads
pub mod Response
pub mod Ends
pub mod Answers
pub mod Accepted
pub mod Bounds
pub mod Whole
pub mod Rounds
pub mod SameImage
pub mod Complete
pub mod Tests
