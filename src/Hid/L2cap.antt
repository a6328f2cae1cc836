-- ===== src/Hid/L2cap.antt =====
-- The L2CAP sockets of jni/hidserv.c: `l2cap_connect`, `l2cap_listen` and `l2cap_accept`, with what
-- the system calls return as arguments, and the descriptors that they leave open.
use bt_ota_bluez_api.Common.{
  ◌≡◌, refl, ap, inl, inr, Bool, true, false, Option, none, some, List, [], ◌∷◌, arith,
  if◌then◌else◌, Bool-cases,
}
use bt_ota_bluez_api.Common.Int.{ℤ, negsuc, is_negative}
use bt_ota_bluez_api.Hid.Sockets.{close, same_fd}

-- What `socket`, `bind` and `connect` (or `listen`) return. The result of `setsockopt` is ignored.
pub record Calls : Type 0 where
  pub socket_res : ℤ
  pub bind_res : ℤ
  pub last_res : ℤ

unfoldable pub l2cap_connect : Calls → List ℤ → ℤ × List ℤ
l2cap_connect c fds =
    if is_negative c.socket_res
    then (negsuc 0, fds)
    else if is_negative c.bind_res
    then (negsuc 0, close c.socket_res (c.socket_res ∷ fds))
    else if is_negative c.last_res
    then (negsuc 0, close c.socket_res (c.socket_res ∷ fds))
    else (c.socket_res, c.socket_res ∷ fds)

-- The same calls, with `listen` in place of `connect`.
unfoldable pub l2cap_listen : Calls → List ℤ → ℤ × List ℤ
l2cap_listen c fds =
    if is_negative c.socket_res
    then (negsuc 0, fds)
    else if is_negative c.bind_res
    then (negsuc 0, close c.socket_res (c.socket_res ∷ fds))
    else if is_negative c.last_res
    then (negsuc 0, close c.socket_res (c.socket_res ∷ fds))
    else (c.socket_res, c.socket_res ∷ fds)

-- `bdaddr` is what the pointer leads to, `none` for NULL, and `peer` is the address that `accept`
-- fills in.
unfoldable pub l2cap_accept : {A : Type 0} → ℤ → A → Option A → List ℤ → ℤ × Option A × List ℤ
l2cap_accept nsk peer bdaddr fds =
    if is_negative nsk
    then (negsuc 0, bdaddr, fds)
    else (nsk, (elim bdaddr [ none ↦ none | some _ ↦ some peer ]), nsk ∷ fds)

-- Whether a descriptor is in the table.
abbrev pub is_open : ℤ → List ℤ → Bool
is_open fd [] = false
is_open fd (x ∷ xs) = let rest = is_open fd xs in if same_fd fd x then true else rest

pub close-fresh : (fd : ℤ) (fds : List ℤ) → is_open fd fds ≡ false → close fd fds ≡ fds
unfolding close
close-fresh fd [] h = refl
close-fresh fd (x ∷ fds) h = elim (Bool-cases (same_fd fd x)) [
  | inl e ↦ absurd (ground arith)
  | inr e ↦ rw e (ap (λ xs. x ∷ xs) (close-fresh fd fds (rw e at h)))
]

-- A descriptor that was just opened is closed without a trace.
pub close-opened : (fd : ℤ) (fds : List ℤ) → is_open fd fds ≡ false → close fd (fd ∷ fds) ≡ fds
unfolding close
close-opened fd fds h = rw (same fd) (close-fresh fd fds h)
  where
    same : (fd : ℤ) → same_fd fd fd ≡ true
    same fd = ground arith

-- Whether the calls go well.
abbrev pub succeed : Calls → Bool
succeed c =
    if is_negative c.socket_res
    then false
    else if is_negative c.bind_res
    then false
    else if is_negative c.last_res
    then false
    else true

-- A socket that could be bound and connected is the result and is open; else the result is -1 and
-- nothing that was opened stays open. `socket` gives a descriptor that was not open.
pub l2cap_connect_lem :
    (c : Calls) (fds : List ℤ)
    → is_open c.socket_res fds ≡ false
    → l2cap_connect c fds
      ≡ (if succeed c then (c.socket_res, c.socket_res ∷ fds) else (negsuc 0, fds))
unfolding l2cap_connect
l2cap_connect_lem c fds h = let e = close-opened c.socket_res fds h in ground arith

pub l2cap_listen_lem :
    (c : Calls) (fds : List ℤ)
    → is_open c.socket_res fds ≡ false
    → l2cap_listen c fds
      ≡ (if succeed c then (c.socket_res, c.socket_res ∷ fds) else (negsuc 0, fds))
unfolding l2cap_listen
l2cap_listen_lem c fds h = let e = close-opened c.socket_res fds h in ground arith
