-- ===== src/Ota/Update/Rounds.antt =====
-- What a round of a device that takes every command leads to.
use bt_ota_bluez_api.Common.{
  ℕ, suc, ◌+◌, ◌≤◌, ◌<◌, ◌≡◌, refl, sym, ap, ◌∙◌, inl, inr, some, List, [], ◌∷◌, ◌++◌, arith,
  CharSign, Option-cases, length,
}
use mathlib.Core.Path.{subst, ap₂}
use mathlib.Core.Option.{none-ne-some, some-injective}
use bt_ota_bluez_api.Common.Int.{pos}
use bt_ota_bluez_api.Ota.Globals.{Globals}
use bt_ota_bluez_api.Ota.Reader.{on_response}
use bt_ota_bluez_api.Ota.Update.State.{ota_success, returned, Updater, System}
use bt_ota_bluez_api.Ota.Update.Begin.{begin_cmd-IsBegun}
use bt_ota_bluez_api.Ota.Update.Answers.{Completes-complete}
use bt_ota_bluez_api.Ota.Update.Accepted.{
  Ready, Takes, sent_out, taken, passes, wire_out, Takes-Accepts, polls_on, update_turn-at,
}
use bt_ota_bluez_api.Ota.Update.Steps.{Turn, update_turn, turn, run, retry, poll, leave, after_poll}
use bt_ota_bluez_api.Ota.Update.Whole.{
  round, rounds, TakesAt, Finishes, AllTake, packets, FitsAt, AllFit, Before,
}

module _ (fw : ℕ → ℕ) (sign : CharSign) (w : ℕ) where
  Before-Ready : (n : ℕ) (s : System) → n ≤ 33089 → FitsAt fw n → Before fw n s → Ready s
  Before-Ready n s few (a, b, c) h = record {
    at_next = h.at_next;
    listens = h.listens;
    quiet = h.quiet;
    header_fits = rw (h.place) a;
    command_fits = rw (h.image, h.place) (b, c);
    progress_fits = (omega (arith, h.counts), h.not_empty);
  }

  Before-Takes :
      (n : ℕ) (bytes : List ℕ) (s : System)
      → Before fw n s
      → TakesAt fw n bytes
      → Takes sign bytes s
  Before-Takes n bytes s h t = rw (h.image, h.place) t

  -- What the way to the next place leaves in the locals and the globals.
  taken-keeps :
      (bytes : List ℕ) (s : System) (r : Updater × Globals)
      → let s' = poll (taken sign w bytes s r) in
        (s'.globals.num1 ≡ r.1.num1)
        × (s'.globals.flag_read ≡ r.1.flag_read)
        × (s'.globals.is_verbose_log ≡ r.1.is_verbose_log)
        × (s'.globals.total_cmd_num ≡ r.1.total_cmd_num)
  unfolding poll retry on_response
  taken-keeps bytes s r = (ground arith, ground arith, ground arith, ground arith)

  -- A round with a response that takes the command.
  round-Before :
      (n : ℕ) (bytes : List ℕ) (s : System)
      → n ≤ 33089
      → FitsAt fw n
      → TakesAt fw n bytes
      → Before fw n s
      → (s' : System) × (run sign (round w bytes) s ≡ some s') × Before fw (suc n) s'
  unfolding poll retry
  round-Before n bytes s few fits t h =
      let ready = Before-Ready n s few fits h in
      let b =
        begin_cmd-IsBegun sign s.updater s.globals ready.header_fits ready.command_fits.0
          ready.command_fits.1 ready.progress_fits.0 ready.progress_fits.1 in
      let r : Updater × Globals = (b.u', b.g') in
      let kept = taken-keeps bytes s r in
      (
        poll (taken sign w bytes s r),
        passes sign w bytes s b ready,
        record {
          at_next =
              polls_on sign w bytes s r
                (Takes-Accepts sign w bytes s b (Before-Takes n bytes s h t));
          listens = (h.listens.0, kept.1 ∙ b.kept.0 ∙ h.listens.1);
          quiet = kept.2 ∙ b.kept.1 ∙ h.quiet;
          image = b.image.0 ∙ h.image;
          place = ap₂ ◌+◌ b.moved b.sized ∙ rw (h.image, h.place) refl;
          not_empty = subst (λ m. 0 < m) (sym b.image.1) h.not_empty;
          counts = (
            omega (arith, kept.0, b.counts_up, h.counts),
            kept.3 ∙ b.staged.1 ∙ omega (arith, h.counts),
          );
          wired =
              wire_out sign w bytes s r ∙ ap₂ ◌∷◌ (b.framed ∙ rw (h.image, h.place) refl) h.wired;
        },
      )

pub run-append :
    (sign : CharSign) (ts ts' : List Turn) (s m : System)
    → run sign ts s ≡ some m
    → run sign (ts ++ ts') s ≡ run sign ts' m
unfolding run
run-append sign [] ts' s m h = ap (run sign ts') (some-injective s m h)
run-append sign (t ∷ ts) ts' s m h = elim (Option-cases (turn sign t s)) [
  | inl e ↦ absurd (none-ne-some m (rw e at h))
  | inr (k, e) ↦ rw e (run-append sign ts ts' k m (rw e at h))
]

module _ (fw : ℕ → ℕ) (sign : CharSign) (w : ℕ) where
  pub rounds-Before :
      (answers : List (List ℕ)) (n : ℕ) (s : System)
      → n + length answers ≤ 33090
      → AllFit fw n (n + length answers)
      → AllTake fw n answers
      → Before fw n s
      → (s' : System) × (run sign (rounds w answers) s ≡ some s')
        × Before fw (n + length answers) s'
  rounds-Before [] n s few fits takes h =
      (s, unfold run in refl, subst (λ m. Before fw m s) (omega arith) h)
  rounds-Before (bytes ∷ answers) n s few fits (t, takes) h =
      let (m, goes, h₁) =
        round-Before fw sign w n bytes s (omega arith) (fits n (omega arith) (omega arith)) t h in
      let (s', goes', h₂) =
        rounds-Before answers (suc n) m (omega arith)
          (λ k lo hi. fits k (omega arith) (omega arith)) takes h₁ in
      (
        s',
        run-append sign (round w bytes) (rounds w answers) s m goes ∙ goes',
        subst (λ m. Before fw m s') (omega arith) h₂,
      )

  -- The last round, and the exit.
  pub finish-returns :
      (n : ℕ) (bytes : List ℕ) (s : System)
      → n ≤ 33089
      → FitsAt fw n
      → Finishes bytes
      → Before fw n s
      → (s' : System) × (run sign (round w bytes ++ (update_turn (pos w) ∷ [])) s ≡ some s')
        × (s'.updater.pc ≡ returned)
        × (s'.wire ≡ packets fw (suc n))
        × (s'.globals.total_cmd_num ≡ suc n)
  unfolding poll retry leave
  finish-returns n bytes s few fits (rid, cmd, ok) h =
      let ready = Before-Ready fw sign w n s few fits h in
      let b =
        begin_cmd-IsBegun sign s.updater s.globals ready.header_fits ready.command_fits.0
          ready.command_fits.1 ready.progress_fits.0 ready.progress_fits.1 in
      let r : Updater × Globals = (b.u', b.g') in
      let ended : System = poll (taken sign w bytes s r) in
      let at : ended.updater.pc ≡ ota_success =
        ap after_poll (
          Completes-complete sign bytes (sent_out sign w bytes s r).globals (rid, inl (cmd, ok))) in
      (
        leave ended,
        run-append sign (round w bytes) _ s ended (passes sign w bytes s b ready)
            ∙ (unfold run in
                rw (update_turn-at ota_success sign (pos w) ended (leave ended) at refl)),
        refl,
        wire_out sign w bytes s r ∙ ap₂ ◌∷◌ (b.framed ∙ rw (h.image, h.place) refl) h.wired,
        (taken-keeps fw sign w bytes s r).3 ∙ b.staged.1 ∙ omega (arith, h.counts),
      )
