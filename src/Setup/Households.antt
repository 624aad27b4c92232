-- ===== src/Setup/Households.antt =====
-- config_flow.py: no two direct steps make an entry for one household.
use homekey_household.Prelude.{Text, member, false, List, [], ◌∷◌, ◌≡◌, refl, subst, ap}
use homekey_household.Models.Values.{Writer}
use homekey_household.Command.Encoding.{Bytes}
use homekey_household.Direct.Connect.{Peer}
use homekey_household.Setup.Flow.{Discovery, Step, step_direct, entry_of}
use homekey_household.Setup.Agreement.{step_direct-IsMade}

-- No text is twice in the list.
abbrev pub IsDistinct : List Text → Type 0
IsDistinct [] = Unit
IsDistinct (t ∷ ts) = (member t ts ≡ false) × IsDistinct ts

-- A discovery step: the node that was discovered, what the user gave, and what the node answers.
pub record Visit : Type 0 where
  pub discovery : Discovery
  pub given : Text
  pub password : Text
  pub peer : Peer

-- The households after a step: a new entry brings one.
abbrev pub with_entry : Step → List Text → List Text
with_entry (Step.created e) households = e.household_id ∷ households
with_entry (Step.form key) households = households
with_entry (Step.abort reason) households = households
with_entry (Step.updated e) households = households
with_entry (Step.crashed err) households = households

module _ (w : Writer) (sha256 : Bytes → Bytes) where
  unfoldable pub visit_all : List Visit → List Text → List Text
  unfolding step_direct
  visit_all [] households = households
  visit_all (v ∷ rest) households = visit_all rest (
      with_entry (step_direct w sha256 households v.discovery v.given v.password v.peer).1
        households)

  with_entry-IsDistinct :
      (v : Visit) (households : List Text) (step : Step)
      → (step_direct w sha256 households v.discovery v.given v.password v.peer).1 ≡ step
      → IsDistinct households
      → IsDistinct (with_entry step households)
  with_entry-IsDistinct v households (Step.created e) made h =
      let m = step_direct-IsMade w sha256 households v.discovery v.given v.password v.peer e made in
      let same : m.probe.household_id ≡ e.household_id =
        unfold entry_of in ap (λ d. d.household_id) m.entry in
      (subst (λ t. member t households ≡ false) same m.new, h)
  with_entry-IsDistinct v households (Step.form key) made h = h
  with_entry-IsDistinct v households (Step.abort reason) made h = h
  with_entry-IsDistinct v households (Step.updated e) made h = h
  with_entry-IsDistinct v households (Step.crashed err) made h = h

  -- After any direct steps, whatever the nodes answer, the households of the entries are distinct if
  -- they were before: each new entry is for a household that no entry had.
  pub visit_all-IsDistinct :
      (visits : List Visit) (households : List Text)
      → IsDistinct households
      → IsDistinct (visit_all visits households)
  unfolding visit_all
  visit_all-IsDistinct [] households h = h
  visit_all-IsDistinct (v ∷ rest) households h =
      visit_all-IsDistinct rest _ (with_entry-IsDistinct v households _ refl h)
