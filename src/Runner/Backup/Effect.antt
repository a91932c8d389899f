-- ===== src/Runner/Backup/Effect.antt =====
-- What a step of a backup changes: the entry of its device, by a function of it, and the
-- collectors, but not the health series of other devices.
use jconfig.Prelude.{
  Bool, true, false, ◌≡◌, refl, ap, ◌∙◌, Option, none, some, arith, ◌==◌, nat_equality,
  list_equality, text_eq, if◌then◌else◌,
}
use jconfig.Prelude.Dict.{get, get-put}
use jconfig.Strings.Basic.{Text}
use jconfig.Metrics.{Metrics}
use jconfig.Metrics.Health.{SameFor, SameFor-refl, SameFor-trans}
use jconfig.Runner.Types.{State, Runner}
use jconfig.Runner.Table.{update}

abbrev pub map_state : (State → State) → Option State → Option State
map_state f none = none
map_state f (some st) = some (f st)

pub record Touches {S : Type 0} (d : Text) (f : State → State) (r r' : Runner S) : Type 0 where
  pub states :
      (n : Text)
      → get n r'.states ≡ (if d == n then map_state f (get n r.states) else get n r.states)
  pub others : (n : Text) → (d == n) ≡ false → SameFor n r.metrics r'.metrics
  pub same_cfg : r'.cfg ≡ r.cfg
  pub same_busy : r'.busy ≡ r.busy

branch_trans :
    (b : Bool) (f g : State → State) (o : Option State)
    → (if b then map_state g (if b then map_state f o else o) else (if b then map_state f o else o))
      ≡ (if b then map_state (λ st. g (f st)) o else o)
branch_trans true f g none = refl
branch_trans true f g (some st) = refl
branch_trans false f g o = refl

module _ {S : Type 0} where
  get-update :
      (d n : Text) (f : State → State) (r : Runner S) (o : Option State)
      → get d r.states ≡ o
      → get n (update d f r).states
        ≡ (if d == n then map_state f (get n r.states) else get n r.states)
  unfolding update
  get-update d n f r none h = ground (arith, text_eq d n)
  get-update d n f r (some st) h =
      rw (h, update) (ground (arith, text_eq d n, get-put d n (f st) r.states))

  update_other :
      (d : Text) (f : State → State) (r : Runner S) (o : Option State)
      → get d r.states ≡ o
      → ((update d f r).metrics ≡ r.metrics)
        × ((update d f r).cfg ≡ r.cfg)
        × ((update d f r).busy ≡ r.busy)
  unfolding update
  update_other d f r none h = ground arith
  update_other d f r (some st) h = ground arith

  pub update-Touches : (d : Text) (f : State → State) (r : Runner S) → Touches d f r (update d f r)
  update-Touches d f r =
      let same = update_other d f r (get d r.states) refl in
      record {
        states = λ n. get-update d n f r (get d r.states) refl;
        others = λ n h. rw same.0 (SameFor-refl n r.metrics);
        same_cfg = same.1;
        same_busy = same.2;
      }

  -- A step that leaves the table alone.
  pub metrics-Touches :
      (d : Text) (r : Runner S) (s : S) (m : Metrics)
      → ((n : Text) → (d == n) ≡ false → SameFor n r.metrics m)
      → Touches d (λ st. st) r (record r { store = s; metrics = m })
  metrics-Touches d r s m h = record {
    states = λ n. id_branch (d == n) (get n r.states);
    others = h;
    same_cfg = refl;
    same_busy = refl;
  }
    where
      id_branch : (b : Bool) (o : Option State) → o ≡ (if b then map_state (λ st. st) o else o)
      id_branch true none = refl
      id_branch true (some st) = refl
      id_branch false o = refl

  pub Touches-trans :
      {d : Text} {f g : State → State} {r r' r'' : Runner S}
      → Touches d f r r'
      → Touches d g r' r''
      → Touches d (λ st. g (f st)) r r''
  Touches-trans {d} {f} {g} {r} p q = record {
    states = λ n.
        q.states n
        ∙ ap (λ o. if d == n then map_state g o else o) (p.states n)
        ∙ branch_trans (d == n) f g (get n r.states);
    others = λ n h. SameFor-trans (p.others n h) (q.others n h);
    same_cfg = q.same_cfg ∙ p.same_cfg;
    same_busy = q.same_busy ∙ p.same_busy;
  }
