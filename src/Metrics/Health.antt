-- ===== src/Metrics/Health.antt =====
-- The series that say whether a device is being backed up, and what the observations do to them.
use jconfig.Prelude.{
  ℕ, true, false, [], ◌∷◌, ◌≡◌, ◌≢◌, ◌↔◌, refl, sym, ◌∙◌, none, some, arith, ◌==◌, nat_equality,
  list_equality, list_beq, list_beq_iff, text_eq,
}
use jconfig.Prelude.Int.{pos}
use jconfig.Prelude.Dict.{get, put, get-put, get-put_self, get-remove_if}
use jconfig.Prelude.Time.{Time, Duration}
use jconfig.Strings.Basic.{Text}
use jconfig.Metrics.{
  Labels, Vec, Metrics, forget_device, of_device, delete_device, observe_success, observe_failure,
}

-- The last backup of the device failed in this stage, the `k`th time in a row.
pub record IsFailing (m : Metrics) (device : Text) (k : ℕ) (stage : Text) : Type 0 where
  pub count : get (device ∷ []) m.consecutive_failures ≡ some (pos k)
  pub success : get (device ∷ []) m.backup_success ≡ some (pos 0)
  pub in_stage : get (device ∷ stage ∷ []) m.backup_last_error ≡ some (pos 1)
  pub no_other :
      (rest : Labels) → rest ≢ stage ∷ [] → get (device ∷ rest) m.backup_last_error ≡ none

-- The last backup of the device succeeded.
pub record IsHealthy (m : Metrics) (device : Text) : Type 0 where
  pub count : get (device ∷ []) m.consecutive_failures ≡ some (pos 0)
  pub success : get (device ∷ []) m.backup_success ≡ some (pos 1)
  pub no_error : (rest : Labels) → get (device ∷ rest) m.backup_last_error ≡ none

-- These series of the device read the same.
pub record SameFor (device : Text) (m m' : Metrics) : Type 0 where
  pub count : get (device ∷ []) m'.consecutive_failures ≡ get (device ∷ []) m.consecutive_failures
  pub success : get (device ∷ []) m'.backup_success ≡ get (device ∷ []) m.backup_success
  pub errors :
      (rest : Labels)
      → get (device ∷ rest) m'.backup_last_error ≡ get (device ∷ rest) m.backup_last_error

abbrev labels_eq : (a b : Labels) → (list_beq a b ≡ true) ↔ (a ≡ b)
labels_eq a b = list_beq_iff a b

module _ {V : Type 0} (v : V) (m : Vec V) where
  get-put_same : (labels : Labels) → get labels (put labels v m) ≡ some v
  get-put_same labels = get-put_self labels v m

  get-put_device :
      (d n : Text) (xs ys : Labels)
      → (d == n) ≡ false
      → get (n ∷ ys) (put (d ∷ xs) v m) ≡ get (n ∷ ys) m
  get-put_device d n xs ys h =
      ground (arith, get-put (d ∷ xs) (n ∷ ys) v m, labels_eq (d ∷ xs) (n ∷ ys), text_eq d n)

  get-put_rest :
      (n : Text) (xs ys : Labels) → xs ≢ ys → get (n ∷ ys) (put (n ∷ xs) v m) ≡ get (n ∷ ys) m
  get-put_rest n xs ys h =
      ground (arith, get-put (n ∷ xs) (n ∷ ys) v m, labels_eq (n ∷ xs) (n ∷ ys))

module _ {V : Type 0} (m : Vec V) where
  get-delete_self : (n : Text) (rest : Labels) → get (n ∷ rest) (delete_device n m) ≡ none
  unfolding delete_device
  get-delete_self n rest = ground (arith, get-remove_if (of_device n) (n ∷ rest) m, text_eq n n)

  get-delete_other :
      (d n : Text) (rest : Labels)
      → (d == n) ≡ false
      → get (n ∷ rest) (delete_device d m) ≡ get (n ∷ rest) m
  unfolding delete_device
  get-delete_other d n rest h =
      ground (arith, get-remove_if (of_device d) (n ∷ rest) m, text_eq n d, text_eq d n)

module _ (device : Text) (dur : Duration) (m : Metrics) where
  -- A failure sets the count, the success gauge and the stage's error, and clears every other stage.
  pub observe_failure-IsFailing :
      (stage : Text) (k : ℕ) → IsFailing (observe_failure device stage dur k m) device k stage
  unfolding observe_failure
  observe_failure-IsFailing stage k = record {
    count = get-put_same (pos k) m.consecutive_failures (device ∷ []);
    success = get-put_same (pos 0) m.backup_success (device ∷ []);
    in_stage =
        get-put_same (pos 1) (delete_device device m.backup_last_error) (device ∷ stage ∷ []);
    no_other = λ rest h.
        get-put_rest (pos 1) (delete_device device m.backup_last_error) device (stage ∷ []) rest
          (λ e. h (sym e))
        ∙ get-delete_self m.backup_last_error device rest;
  }

  pub observe_success-IsHealthy : (at : Time) → IsHealthy (observe_success device at dur m) device
  unfolding observe_success
  observe_success-IsHealthy at = record {
    count = get-put_same (pos 0) m.consecutive_failures (device ∷ []);
    success = get-put_same (pos 1) m.backup_success (device ∷ []);
    no_error = λ rest. get-delete_self m.backup_last_error device rest;
  }

  pub observe_failure-SameFor :
      (stage : Text) (k : ℕ) (n : Text)
      → (device == n) ≡ false
      → SameFor n m (observe_failure device stage dur k m)
  unfolding observe_failure
  observe_failure-SameFor stage k n h = record {
    count = get-put_device (pos k) m.consecutive_failures device n [] [] h;
    success = get-put_device (pos 0) m.backup_success device n [] [] h;
    errors = λ rest.
        get-put_device (pos 1) (delete_device device m.backup_last_error) device n (stage ∷ []) rest
          h
        ∙ get-delete_other m.backup_last_error device n rest h;
  }

  pub observe_success-SameFor :
      (at : Time) (n : Text) → (device == n) ≡ false → SameFor n m (observe_success device at dur m)
  unfolding observe_success
  observe_success-SameFor at n h = record {
    count = get-put_device (pos 0) m.consecutive_failures device n [] [] h;
    success = get-put_device (pos 1) m.backup_success device n [] [] h;
    errors = λ rest. get-delete_other m.backup_last_error device n rest h;
  }

pub forget_device-SameFor :
    (device n : Text) (m : Metrics) → (device == n) ≡ false → SameFor n m (forget_device device m)
unfolding forget_device
forget_device-SameFor device n m h = record {
  count = get-delete_other m.consecutive_failures device n [] h;
  success = get-delete_other m.backup_success device n [] h;
  errors = λ rest. get-delete_other m.backup_last_error device n rest h;
}

pub SameFor-refl : (n : Text) (m : Metrics) → SameFor n m m
SameFor-refl n m = record { count = refl; success = refl; errors = λ rest. refl }

pub SameFor-trans : {n : Text} {a b c : Metrics} → SameFor n a b → SameFor n b c → SameFor n a c
SameFor-trans p q = record {
  count = q.count ∙ p.count;
  success = q.success ∙ p.success;
  errors = λ rest. q.errors rest ∙ p.errors rest;
}

pub IsFailing-SameFor :
    {n : Text} {m m' : Metrics} {k : ℕ} {stage : Text}
    → SameFor n m m'
    → IsFailing m n k stage
    → IsFailing m' n k stage
IsFailing-SameFor {stage = stage} s f = record {
  count = s.count ∙ f.count;
  success = s.success ∙ f.success;
  in_stage = s.errors (stage ∷ []) ∙ f.in_stage;
  no_other = λ rest h. s.errors rest ∙ f.no_other rest h;
}

pub IsHealthy-SameFor :
    {n : Text} {m m' : Metrics} → SameFor n m m' → IsHealthy m n → IsHealthy m' n
IsHealthy-SameFor s f = record {
  count = s.count ∙ f.count;
  success = s.success ∙ f.success;
  no_error = λ rest. s.errors rest ∙ f.no_error rest;
}
