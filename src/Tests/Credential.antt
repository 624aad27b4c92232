-- ===== src/Tests/Credential.antt =====
-- The command keys of two households at a concrete history.
use homekey_household.Prelude.{Text, codes, none, some, List, [], ◌∷◌, ◌≡◌, arith, true}
use homekey_household.Models.Errors.{ok}
use homekey_household.Command.Encoding.{Bytes, to_hex}
use homekey_household.Credential.Keys.{load, new_store}
use homekey_household.Credential.Changes.{Change, apply_all, first_start, reload-apply_all}
use homekey_household.Tests.Data.{home, gate}

-- A digest that shows its first four bytes.
abbrev digest : Bytes → Text
digest bs = to_hex (0 ∷ 1 ∷ 2 ∷ 3 ∷ bs)

abbrev history : List Change
history =
    Change.set_to home (1 ∷ 255 ∷ []) (some (codes "s"))
    ∷ Change.set_to gate (7 ∷ []) none
    ∷ Change.set_to home [] none
    ∷ Change.removed gate
    ∷ []

reload-apply_all_example :
    let s = apply_all digest history (first_start digest) in
    load digest (new_store s.file)
    ≡ (ok tt, record { cache = s.cache; loaded = true; file = s.file })
reload-apply_all_example =
    reload-apply_all digest history
      ((omega arith, (omega arith, tt)), ((omega arith, tt), (tt, (tt, tt))))
