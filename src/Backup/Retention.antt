-- ===== src/Backup/Retention.antt =====
-- backup.py, `async_add` and `_prune`: the window of the newest backups of each node.
use homekey_household.Prelude.{
  ℕ, zero, suc, ◌-◌, ◌==◌, ◌≤◌, length, drop, take, length-append, length-drop, take-append-drop,
  ==_iff, Text, text_eq, text_eq_iff, true, false, Bool-cases, List, [], ◌∷◌, ◌++◌, ◌≡◌, refl, sym,
  ap, ◌∙◌, subst, arith, append_assoc, append-nil, inl, inr,
}
use homekey_household.Backup.Records.{StoredBackup}
use homekey_household.Backup.Store.{BackupStore, for_node, drop_oldest, prune, add, add_all}

-- The newest `n` of a list whose last is the newest.
abbrev pub newest : ℕ → List StoredBackup → List StoredBackup
newest n bs = drop (length bs - n) bs

-- What is kept of one node: of the backups it had and those that came, the newest, once one came.
abbrev pub window : ℕ → List StoredBackup → List StoredBackup → List StoredBackup
window n old [] = old
window n old (b ∷ bs) = newest n (old ++ (b ∷ bs))

for_node-append :
    (k : Text) (bs cs : List StoredBackup) → for_node k (bs ++ cs) ≡ for_node k bs ++ for_node k cs
unfolding for_node
for_node-append k [] cs = refl
for_node-append k (b ∷ bs) cs = ground (arith, for_node-append k bs cs)

for_node-drop_oldest_self :
    (k : Text) (n : ℕ) (bs : List StoredBackup)
    → for_node k (drop_oldest k n bs) ≡ drop n (for_node k bs)
unfolding for_node drop_oldest
for_node-drop_oldest_self k zero bs = refl
for_node-drop_oldest_self k (suc n) [] = refl
for_node-drop_oldest_self k (suc n) (b ∷ bs) = elim (Bool-cases (text_eq b.node_id k)) [
  | inl same ↦ rw same (for_node-drop_oldest_self k n bs)
  | inr other ↦ rw (other, other) (for_node-drop_oldest_self k (suc n) bs)
]

for_node-drop_oldest_other :
    (j k : Text) (n : ℕ) (bs : List StoredBackup)
    → text_eq j k ≡ false
    → for_node k (drop_oldest j n bs) ≡ for_node k bs
unfolding for_node drop_oldest
for_node-drop_oldest_other j k zero bs h = refl
for_node-drop_oldest_other j k (suc n) [] h = refl
for_node-drop_oldest_other j k (suc n) (b ∷ bs) h = ground (
  arith,
  text_eq_iff b.node_id j,
  text_eq_iff b.node_id k,
  text_eq_iff j k,
  for_node-drop_oldest_other j k n bs,
  for_node-drop_oldest_other j k (suc n) bs,
)

for_node-prune_self :
    (n : ℕ) (k : Text) (bs : List StoredBackup)
    → for_node k (prune n k bs) ≡ newest n (for_node k bs)
unfolding prune
for_node-prune_self n k bs = elim (Bool-cases (length (for_node k bs) - n == 0)) [
  | inl few ↦
      let none_over : length (for_node k bs) - n ≡ 0 = (==_iff _ _).0 few in
      rw few (ap (λ m. drop m (for_node k bs)) (sym none_over))
  | inr many ↦ rw many (for_node-drop_oldest_self k _ bs)
]

for_node-prune_other :
    (n : ℕ) (j k : Text) (bs : List StoredBackup)
    → text_eq j k ≡ false
    → for_node k (prune n j bs) ≡ for_node k bs
unfolding prune
for_node-prune_other n j k bs h = elim (Bool-cases (length (for_node j bs) - n == 0)) [
  | inl few ↦ rw few refl
  | inr many ↦ rw many (for_node-drop_oldest_other j k _ bs h)
]

for_node-add_self :
    (k : Text) (b : StoredBackup) (s : BackupStore)
    → text_eq b.node_id k ≡ true
    → for_node k (add b s).backups ≡ newest s.keep (for_node k s.backups ++ (b ∷ []))
unfolding add for_node
for_node-add_self k b s same =
    let here : b.node_id ≡ k = (text_eq_iff b.node_id k).0 same in
    subst
      (λ j.
        for_node k (prune s.keep j (s.backups ++ (b ∷ [])))
        ≡ newest s.keep (for_node k s.backups ++ (b ∷ [])))
      (sym here)
      (for_node-prune_self s.keep k (s.backups ++ (b ∷ []))
        ∙ ap (newest s.keep) (for_node-append k s.backups (b ∷ []) ∙ rw same refl))

for_node-add_other :
    (k : Text) (b : StoredBackup) (s : BackupStore)
    → text_eq b.node_id k ≡ false
    → for_node k (add b s).backups ≡ for_node k s.backups
unfolding add for_node
for_node-add_other k b s other =
    for_node-prune_other s.keep b.node_id k (s.backups ++ (b ∷ [])) other
    ∙ for_node-append k s.backups (b ∷ [])
    ∙ rw other (append-nil (for_node k s.backups))

-- What is old enough to be dropped does not come back.
newest-append :
    (n : ℕ) (front bs : List StoredBackup) → n ≤ length bs → newest n (front ++ bs) ≡ newest n bs
newest-append n [] bs h = refl
newest-append n (b ∷ front) bs h =
    let more : length (b ∷ front ++ bs) - n ≡ suc (length (front ++ bs) - n) =
      omega (arith, length-append front bs) in
    rw more (newest-append n front bs h)

newest-newest :
    (n : ℕ) (bs cs : List StoredBackup) → newest n (newest n bs ++ cs) ≡ newest n (bs ++ cs)
newest-newest n bs cs = elim (Bool-cases (length bs - n == 0)) [
  | inl few ↦
      let none_over : length bs - n ≡ 0 = (==_iff _ _).0 few in
      ap (λ m. newest n (drop m bs ++ cs)) none_over
  | inr many ↦
      let kept = drop (length bs - n) bs in
      let front = take (length bs - n) bs in
      let deep : n ≤ length bs = ground (arith, many) in
      sym (
        newest-append n front (kept ++ cs)
          (omega (arith, length-append kept cs, length-drop (length bs - n) bs)))
      ∙ ap (newest n) (
          sym (append_assoc front kept cs)
          ∙ ap (λ ds. ds ++ cs) (take-append-drop (length bs - n) bs))
]

window-step :
    (n : ℕ) (old : List StoredBackup) (b : StoredBackup) (new : List StoredBackup)
    → window n (newest n (old ++ (b ∷ []))) new ≡ window n old (b ∷ new)
window-step n old b [] = refl
window-step n old b (c ∷ new) =
    newest-newest n (old ++ (b ∷ [])) (c ∷ new)
    ∙ ap (newest n) (append_assoc old (b ∷ []) (c ∷ new))

-- After any additions, a node for which none came has the backups that it had, and a node for which
-- some came has the newest `keep` of those it had followed by those that came, in their order; so no
-- addition touches another node's backups.
pub for_node-add_all :
    (k : Text) (new : List StoredBackup) (s : BackupStore)
    → for_node k (add_all new s).backups ≡ window s.keep (for_node k s.backups) (for_node k new)
unfolding add_all for_node add
for_node-add_all k [] s = refl
for_node-add_all k (b ∷ new) s = elim (Bool-cases (text_eq b.node_id k)) [
  | inl same ↦
      for_node-add_all k new (add b s)
      ∙ ap (λ old. window s.keep old (for_node k new)) (for_node-add_self k b s same)
      ∙ rw same (window-step s.keep (for_node k s.backups) b (for_node k new))
  | inr other ↦
      for_node-add_all k new (add b s)
      ∙ ap (λ old. window s.keep old (for_node k new)) (for_node-add_other k b s other)
      ∙ rw other refl
]

length-newest : (n : ℕ) (bs : List StoredBackup) → length (newest n bs) ≤ n
length-newest n bs = omega (arith, length-drop (length bs - n) bs)

length-window :
    (n : ℕ) (old new : List StoredBackup) → length old ≤ n → length (window n old new) ≤ n
length-window n old [] h = h
length-window n old (b ∷ new) h = length-newest n (old ++ (b ∷ new))

-- No more than `keep` backups of any node are held, after any additions to a store that held no more.
pub add_all_bounded :
    (new : List StoredBackup) (s : BackupStore)
    → ((k : Text) → length (for_node k s.backups) ≤ s.keep)
    → (k : Text) → length (for_node k (add_all new s).backups) ≤ s.keep
add_all_bounded new s h k =
    rw (for_node-add_all k new s)
      (length-window s.keep (for_node k s.backups) (for_node k new) (h k))
