-- ===== src/Ota/Update/Written.antt =====
-- The state after the write of a command.
use mathlib.Core.Option.{none-ne-some, some-injective}
use bt_ota_bluez_api.Common.{
  ◌≡◌, sym, inl, inr, false, some, ◌∷◌, Bool-cases, Option-cases, CharSign, if◌then◌else◌,
}
use bt_ota_bluez_api.Common.Int.{ℤ, is_negative}
use bt_ota_bluez_api.Ota.Writer.{hid_write}
use bt_ota_bluez_api.Ota.Writer.Laws.{hid_write-negative, hid_write_lem}
use bt_ota_bluez_api.Ota.Update.State.{wait_response, ota_fail, System}
use bt_ota_bluez_api.Ota.Update.Steps.{packet, write}

abbrev pub written : ℤ → System → System
written res s = record s {
  updater = record s.updater { pc = if is_negative res then ota_fail else wait_response };
  wire = if is_negative res then s.wire else packet s.updater ∷ s.wire;
}

module _ (sign : CharSign) (res : ℤ) (s : System) where
  pub write-eq-some : (s' : System) → write sign res s ≡ some s' → s' ≡ written res s
  unfolding write
  write-eq-some s' h =
      elim (Option-cases (hid_write sign s.globals.is_verbose_log (packet s.updater) res)) [
        | inl e ↦ absurd (none-ne-some s' (rw e at h))
        | inr (ret, e) ↦
            let same =
              hid_write-negative sign s.globals.is_verbose_log (packet s.updater) res {ret = ret}
                e in
            sym (some-injective (written res s) s' (rw (e, same) at h))
      ]

  -- With the verbose log off the write comes back.
  pub write_quiet : s.globals.is_verbose_log ≡ false → write sign res s ≡ some (written res s)
  unfolding write
  write_quiet quiet =
      let lem = (hid_write_lem sign (packet s.updater) res).0 in
      elim (Bool-cases (is_negative res)) [
        | inl bad ↦ rw (quiet, lem, bad)
        | inr good ↦ rw (quiet, lem, good)
      ]
