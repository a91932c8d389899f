-- ===== src/Runner/Slots/Results.antt =====
-- internal/runner/runner.go: the results of a run and its devices.
use jconfig.Prelude.{
  ℕ, ◌+◌, ◌*◌, ◌≤◌, ◌<◌, Bool, true, false, not, List, [], ◌∷◌, ◌++◌, ◌≡◌, ◌⊎◌, refl, sym, ap, ◌∙◌,
  arith, length, nat_equality, list_equality,
}
use mathlib.Core.List.{Perm, perm_middle, append-nil}
use mathlib.Core.List.Perm
use jconfig.Strings.Basic.{Text}
use jconfig.Runner.Slots.{
  Phase, waiting, working, recorded, leaving, gone, Goroutine, Moves, here, there, Pool, Step,
  acquire, give_up, note, release, done, cancel, launched, Reach, start, later,
}
use jconfig.Runner.Slots.Safety.{total, Moves-total, live, total-launched, Reach-IsCounted}
use jconfig.Runner.Slots.Ends.{Reach-measure, goes_on}

unfoldable with_result : Phase → Bool
with_result waiting = false
with_result working = false
with_result recorded = true
with_result (leaving b) = b
with_result (gone b) = b

abbrev add_if : Bool → Text → List Text → List Text
add_if true d ds = d ∷ ds
add_if false d ds = ds

-- The devices of the goroutines that noted a result.
unfoldable reported : List Goroutine → List Text
unfolding with_result
reported [] = []
reported (g ∷ gs) = add_if (with_result g.phase) g.device (reported gs)

unfoldable names : List Goroutine → List Text
names [] = []
names (g ∷ gs) = g.device ∷ names gs

-- A goroutine that left without a result.
unfoldable dropped : Phase → ℕ
dropped waiting = 0
dropped working = 0
dropped recorded = 0
dropped (leaving b) = elim b [ true ↦ 0 | false ↦ 1 ]
dropped (gone b) = elim b [ true ↦ 0 | false ↦ 1 ]

Moves-names :
    {d : Text} {p q : Phase} {xs ys : List Goroutine} → Moves d p q xs ys → names ys ≡ names xs
unfolding names
Moves-names here = refl
Moves-names (there {g} m) = ap (λ ds. g.device ∷ ds) (Moves-names m)

Moves-reported :
    {d : Text} {p q : Phase} {xs ys : List Goroutine}
    → with_result p ≡ with_result q
    → Moves d p q xs ys
    → reported ys ≡ reported xs
unfolding reported
Moves-reported {d} h (here {rest}) = ap (λ b. add_if b d (reported rest)) (sym h)
Moves-reported h (there {g} m) =
    ap (λ ds. add_if (with_result g.phase) g.device ds) (Moves-reported h m)

add_if-perm :
    (b : Bool) (d e : Text) (xs ys : List Text)
    → Perm ys (d ∷ xs)
    → Perm (add_if b e ys) (d ∷ add_if b e xs)
add_if-perm true d e xs ys p = Perm.trans (Perm.cons e p) (Perm.swap d e xs)
add_if-perm false d e xs ys p = p

Moves-noted :
    {d : Text} {xs ys : List Goroutine}
    → Moves d working recorded xs ys
    → Perm (reported ys) (d ∷ reported xs)
unfolding reported with_result
Moves-noted {d} (here {rest}) = Perm.refl (d ∷ reported rest)
Moves-noted {d} (there {g} {xs} {ys} m) =
    add_if-perm (with_result g.phase) d g.device (reported xs) (reported ys) (Moves-noted m)

-- The results are those of the goroutines that noted one, and nothing is dropped before the end of
-- the context.
record IsReported (devices : List Text) (s : Pool) : Type 0 where
  all_devices : names s.goroutines ≡ devices
  noted : Perm s.results (reported s.goroutines)
  none_dropped : s.ended ≡ false → total dropped s.goroutines ≡ 0

Step-IsReported :
    {capacity : ℕ} {devices : List Text} {s t : Pool}
    → Step capacity s t
    → IsReported devices s
    → IsReported devices t
unfolding dropped with_result
Step-IsReported (acquire lt m) r = record {
  all_devices = Moves-names m ∙ r.all_devices;
  noted = rw (Moves-reported refl m) r.noted;
  none_dropped = λ e. omega (arith, Moves-total dropped m, r.none_dropped e);
}
Step-IsReported (give_up h m) r = record {
  all_devices = Moves-names m ∙ r.all_devices;
  noted = rw (Moves-reported refl m) r.noted;
  none_dropped = λ e. absurd (let clash : true ≡ false = sym h ∙ e in cc);
}
Step-IsReported {s} (note {d} {gs} m) r = record {
  all_devices = Moves-names m ∙ r.all_devices;
  noted =
      Perm.trans (perm_middle s.results [])
        (Perm.trans (rw (append-nil s.results) (Perm.cons d r.noted)) (Perm.symm (Moves-noted m)));
  none_dropped = λ e. omega (arith, Moves-total dropped m, r.none_dropped e);
}
Step-IsReported (release m) r = record {
  all_devices = Moves-names m ∙ r.all_devices;
  noted = rw (Moves-reported refl m) r.noted;
  none_dropped = λ e. omega (arith, Moves-total dropped m, r.none_dropped e);
}
Step-IsReported (done m) r = record {
  all_devices = Moves-names m ∙ r.all_devices;
  noted = rw (Moves-reported refl m) r.noted;
  none_dropped = λ e. omega (arith, Moves-total dropped m, r.none_dropped e);
}
Step-IsReported (cancel e) r = record {
  all_devices = r.all_devices;
  noted = r.noted;
  none_dropped = λ h. absurd cc;
}

names-launched : (devices : List Text) → names (launched devices) ≡ devices
unfolding names
names-launched [] = refl
names-launched (d ∷ ds) = ap (λ r. d ∷ r) (names-launched ds)

reported-launched : (devices : List Text) → reported (launched devices) ≡ []
unfolding reported with_result
reported-launched [] = refl
reported-launched (d ∷ ds) = reported-launched ds

Reach-IsReported :
    {capacity : ℕ} {devices : List Text} {n : ℕ} {s : Pool}
    → Reach capacity devices n s
    → IsReported devices s
unfolding dropped
Reach-IsReported {devices} start = record {
  all_devices = names-launched devices;
  noted = rw (reported-launched devices) (Perm.refl []);
  none_dropped = λ e. omega (arith, total-launched dropped devices);
}
Reach-IsReported (later r st) = Step-IsReported st (Reach-IsReported r)

-- When all goroutines are gone and none was dropped, all have a result.
has_result : (p : Phase) → live p ≡ 0 → dropped p ≡ 0 → with_result p ≡ true
unfolding live dropped with_result
has_result waiting h k = absurd (omega arith)
has_result working h k = absurd (omega arith)
has_result recorded h k = absurd (omega arith)
has_result (leaving b) h k = absurd (omega arith)
has_result (gone true) h k = refl
has_result (gone false) h k = absurd (omega arith)

-- The devices of the goroutines that have noted no result.
unfoldable omitted : List Goroutine → List Text
unfolding with_result
omitted [] = []
omitted (g ∷ gs) = add_if (not (with_result g.phase)) g.device (omitted gs)

reported-omitted : (gs : List Goroutine) → Perm (reported gs ++ omitted gs) (names gs)
unfolding reported omitted names
reported-omitted [] = Perm.refl []
reported-omitted (g ∷ gs) = by_result (with_result g.phase) (reported-omitted gs)
  where
    by_result :
        (b : Bool)
        → Perm (reported gs ++ omitted gs) (names gs)
        → Perm
            (add_if b g.device (reported gs) ++ add_if (not b) g.device (omitted gs))
            (g.device ∷ names gs)
    by_result true p = Perm.cons g.device p
    by_result false p = Perm.trans (perm_middle (reported gs) (omitted gs)) (Perm.cons g.device p)

all_noted : (gs : List Goroutine) → total live gs ≡ 0 → total dropped gs ≡ 0 → omitted gs ≡ []
unfolding total live dropped omitted with_result
all_noted [] h k = refl
all_noted (g ∷ gs) h k =
    rw (has_result g.phase (omega arith) (omega arith)) (all_noted gs (omega arith) (omega arith))

-- What a run has when its wait is over: a result for each device, but for those that are left out;
-- none is left out unless the context ended.
pub record IsAccountedFor (devices : List Text) (s : Pool) : Type 0 where
  pub left_out : List Text
  pub each_once : Perm (s.results ++ left_out) devices
  pub all_there : s.ended ≡ false → left_out ≡ []

-- With room for at least one device, a run makes at most four steps for each device and one for
-- the context's end. As long as the run waits for some goroutine, a goroutine can go on, whether or
-- not the context ends. When the wait is over, the results and the devices left out are all the
-- devices, each once, and none is left out unless the context ended.
pub run-ends :
    {capacity n : ℕ} {devices : List Text} {s : Pool}
    → 0 < capacity
    → Reach capacity devices n s
    → (n ≤ 4 * length devices + 1)
      × ((s.unfinished ≡ 0) ⊎ ((t : Pool) × Step capacity s t × (t.ended ≡ s.ended)))
      × (s.unfinished ≡ 0 → IsAccountedFor devices s)
run-ends {s} room r =
    let counted = Reach-IsCounted r in
    let known = Reach-IsReported r in
    (
      omega (arith, Reach-measure r),
      goes_on s room counted,
      λ over. record {
        left_out = omitted s.goroutines;
        each_once =
            Perm.trans (Perm.append known.noted (Perm.refl (omitted s.goroutines)))
              (let split = reported-omitted s.goroutines in rw known.all_devices at split);
        all_there =
            λ e. all_noted s.goroutines (omega (arith, counted.waited_for)) (known.none_dropped e);
      },
    )
