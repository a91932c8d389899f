-- ===== src/Junos/Newest.antt =====
-- internal/junos/junos.go: which commit of the history applyCommit reports.
use jconfig.Prelude.{
  Bool, true, false, List, [], ◌∷◌, ◌≡◌, ◌⊎◌, inl, inr, refl, ◌∙◌, Option, none, some, arith, All,
  ◌==◌, nat_equality, list_equality, Bool-cases,
}
use mathlib.Core.Logic.Or
use mathlib.Core.Logic.{∥∥₁_prop}
use mathlib.Core.List.{Mem, mem-cons, mem-cons_self, mem-cons_of_mem}
use jconfig.Prelude.Int.{ℤ, pos, ◌≤ℤ◌, ltb_ℤ, int_beq_iff, int_equality}
use jconfig.Junos.Xml.{CommitEntry}
use jconfig.Junos.Metadata.{better, best_commit}

-- The entry is marked as the newest, or none of the history has a smaller number.
abbrev pub IsNewest : CommitEntry → List CommitEntry → Type 0
IsNewest h hs = (h.sequence_number ≡ pos 0) ⊎ All (λ e. h.sequence_number ≤ℤ e.sequence_number) hs

some_entry : {a b : CommitEntry} → some a ≡ some b → a ≡ b
some_entry h = cc

le_refl_ℤ : (a : ℤ) → a ≤ℤ a
le_refl_ℤ a = omega arith

le_trans_ℤ : (a b c : ℤ) → a ≤ℤ b → b ≤ℤ c → a ≤ℤ c
le_trans_ℤ a b c h k = omega arith

mem_past : {x b e : CommitEntry} {hs : List CommitEntry} → Mem x (b ∷ hs) → Mem x (b ∷ e ∷ hs)
mem_past m =
    Or.elim ∥∥₁_prop (mem-cons.0 m) (λ same. mem-cons.1 (Or.inl same))
      (λ later. mem-cons.1 (Or.inr (mem-cons_of_mem _ later)))

best_zero :
    (o : Option CommitEntry) (e : CommitEntry) (hs : List CommitEntry)
    → (e.sequence_number == pos 0) ≡ true
    → best_commit o (e ∷ hs) ≡ some e
unfolding best_commit
best_zero o e hs h = rw h refl

best_on :
    (o : Option CommitEntry) (e : CommitEntry) (hs : List CommitEntry)
    → (e.sequence_number == pos 0) ≡ false
    → best_commit o (e ∷ hs) ≡ best_commit (some (better o e)) hs
unfolding best_commit
best_on o e hs h = rw h refl

-- What the search has found, starting from a first candidate.
Chosen : CommitEntry → List CommitEntry → Type 0
Chosen b hs =
    (h : CommitEntry) × (best_commit (some b) hs ≡ some h) × Mem h (b ∷ hs) × IsNewest h (b ∷ hs)

lt-le_ℤ : (a b : ℤ) → ltb_ℤ a b ≡ true → a ≤ℤ b
lt-le_ℤ a b h = ground arith

not_lt-le_ℤ : (a b : ℤ) → ltb_ℤ a b ≡ false → b ≤ℤ a
not_lt-le_ℤ a b h = ground arith

put_before :
    (b e : CommitEntry) (hs : List CommitEntry) (h : CommitEntry)
    → e.sequence_number ≤ℤ b.sequence_number
    → IsNewest h (e ∷ hs)
    → IsNewest h (b ∷ e ∷ hs)
put_before b e hs h le (inl marked) = inl marked
put_before b e hs h le (inr least) =
    inr (le_trans_ℤ h.sequence_number e.sequence_number b.sequence_number least.0 le, least)

put_between :
    (b e : CommitEntry) (hs : List CommitEntry) (h : CommitEntry)
    → b.sequence_number ≤ℤ e.sequence_number
    → IsNewest h (b ∷ hs)
    → IsNewest h (b ∷ e ∷ hs)
put_between b e hs h le (inl marked) = inl marked
put_between b e hs h le (inr least) = inr (
  least.0,
  (le_trans_ℤ h.sequence_number b.sequence_number e.sequence_number least.0 le, least.1),
)

past_better :
    (b e : CommitEntry) (hs : List CommitEntry)
    → (e.sequence_number == pos 0) ≡ false
    → Chosen (better (some b) e) hs
    → Chosen b (e ∷ hs)
unfolding Chosen
past_better b e hs other (h, found, mem, newest) =
    go (ltb_ℤ e.sequence_number b.sequence_number) refl
  where
    go : (d : Bool) → ltb_ℤ e.sequence_number b.sequence_number ≡ d → Chosen b (e ∷ hs)
    go true lt =
        let mem' : Mem h (e ∷ hs) = rw lt at mem in
        let newest' : IsNewest h (e ∷ hs) = rw lt at newest in
        (
          h,
          best_on (some b) e hs other ∙ found,
          mem-cons_of_mem b mem',
          put_before b e hs h (lt-le_ℤ e.sequence_number b.sequence_number lt) newest',
        )
    go false ge =
        let mem' : Mem h (b ∷ hs) = rw ge at mem in
        let newest' : IsNewest h (b ∷ hs) = rw ge at newest in
        (
          h,
          best_on (some b) e hs other ∙ found,
          mem_past mem',
          put_between b e hs h (not_lt-le_ℤ e.sequence_number b.sequence_number ge) newest',
        )

best_from : (b : CommitEntry) (hs : List CommitEntry) → Chosen b hs
unfolding Chosen best_commit
best_from b [] = (b, refl, mem-cons_self, inr (le_refl_ℤ b.sequence_number, tt))
best_from b (e ∷ hs) =
    step (best_from (better (some b) e) hs) (Bool-cases (e.sequence_number == pos 0))
  where
    step :
        Chosen (better (some b) e) hs
        → ((e.sequence_number == pos 0) ≡ true) ⊎ ((e.sequence_number == pos 0) ≡ false)
        → Chosen b (e ∷ hs)
    step later (inl zero_seq) = (
      e,
      best_zero (some b) e hs zero_seq,
      mem-cons_of_mem b mem-cons_self,
      inl ((int_beq_iff e.sequence_number (pos 0)).0 zero_seq),
    )
    step later (inr other) = past_better b e hs other later

-- From a history that is not empty, the commit that is reported is an entry of it, and it has the
-- number 0 or no entry has a smaller one; from an empty history none is reported.
pub best_commit-IsNewest :
    (hs : List CommitEntry)
    → ((hs ≡ []) × (best_commit none hs ≡ none))
      ⊎ ((h : CommitEntry) × (best_commit none hs ≡ some h) × Mem h hs × IsNewest h hs)
best_commit-IsNewest [] = inl (refl, unfold best_commit in refl)
best_commit-IsNewest (e ∷ hs) = inr (go (Bool-cases (e.sequence_number == pos 0)) (best_from e hs))
  where
    go :
        ((e.sequence_number == pos 0) ≡ true) ⊎ ((e.sequence_number == pos 0) ≡ false)
        → Chosen e hs
        → (h : CommitEntry) × (best_commit none (e ∷ hs) ≡ some h)
          × Mem h (e ∷ hs)
          × IsNewest h (e ∷ hs)
    go (inl zero_seq) chosen = (
      e,
      best_zero none e hs zero_seq,
      mem-cons_self,
      inl ((int_beq_iff e.sequence_number (pos 0)).0 zero_seq),
    )
    go (inr other) chosen =
        unfold Chosen in
        (let (h, found, mem, newest) = chosen in (h, best_on none e hs other ∙ found, mem, newest))
