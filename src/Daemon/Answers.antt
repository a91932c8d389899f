-- ===== src/Daemon/Answers.antt =====
-- internal/httpapi/server.go: what a request for a backup is answered with.
use jconfig.Prelude.{
  ℕ, Bool, true, false, not, ◌&&◌, List, [], ◌∷◌, ◌≡◌, inl, inr, refl, ◌∙◌, Option, none, some,
  is_some, arith, any, ◌==◌, nat_equality, list_equality, Bool-cases, if◌then◌else◌,
}
use jconfig.Prelude.Time.{Time}
use jconfig.Strings.Basic.{Text, codes}
use jconfig.Config.Types.{Device}
use jconfig.Store.Api.{StoreApi}
use jconfig.Runner.Types.{Runner}
use jconfig.Runner.Run.{RunTimes, Job, run_locked, run, find_device, run_found, run_all, run_device}
use jconfig.Daemon.Mux.{Request}
use jconfig.Daemon.Http.{run_response, triggered, handle_backup}

abbrev in_inventory : Text → List Device → Bool
in_inventory name devices = any (λ d. d.name == name) devices

-- The status by the request, the inventory and the run lock.
unfoldable pub backup_status : {S : Type 0} → Request → Runner S → ℕ
unfolding any
backup_status req r =
    if req.wait == codes "false"
    then 202
    else if not (req.device == []) && not (in_inventory req.device r.cfg.devices)
    then 400
    else if r.busy
    then 409
    else 200

turned_if : (b : Bool) (x y : ℕ) → (if b then x else y) ≡ (if not b then y else x)
turned_if true x y = refl
turned_if false x y = refl

turned : {a : Bool} (b : Bool) (x y : ℕ) → a ≡ b → (if a then x else y) ≡ (if not b then y else x)
turned b x y e = rw e (turned_if b x y)

module _ {S : Type 0} (api : StoreApi S) (format_time : Time → Text) (times : RunTimes) where
  found_in :
      (name : Text) (devices : List Device)
      → is_some (find_device api format_time name devices) ≡ in_inventory name devices
  unfolding any
  found_in name [] = refl
  found_in name (d ∷ ds) = ground (arith, found_in name ds)

  locked_status :
      (jobs : List Job) (r : Runner S)
      → (run_response (run_locked api format_time times jobs r).0).status ≡ 200
  locked_status [] r = refl
  locked_status (job ∷ jobs) r = refl

  run_status :
      (jobs : List Job) (r : Runner S)
      → (run_response (run api format_time times jobs r).0).status ≡ (if r.busy then 409 else 200)
  unfolding run
  run_status jobs r = elim (Bool-cases r.busy) [
    | inl busy ↦ rw busy refl
    | inr free ↦ rw free (locked_status jobs _)
  ]

  found_status :
      (fates : List Device → List Job) (name : Text) (r : Runner S) (o : Option Device)
      → (run_response (run_found api format_time times fates name r o).0).status
        ≡ (if is_some o then (if r.busy then 409 else 200) else 400)
  found_status fates name r none = refl
  found_status fates name r (some d) = run_status (fates (d ∷ [])) r

  -- A request for a backup is answered 202 at once if it does not want to wait; otherwise 400 if it
  -- names a device that the inventory does not have, busy or not, then 409 if a run goes on, and 200
  -- when its own run is over.
  pub handle_backup-status :
      (fates : List Device → List Job) (req : Request) (r : Runner S)
      → (handle_backup api format_time times fates req r).response.status ≡ backup_status req r
  unfolding handle_backup backup_status triggered run_all run_device
  handle_backup-status fates req r = elim (Bool-cases (req.wait == codes "false")) [
    | inl detached ↦ rw detached refl
    | inr waits ↦ elim (Bool-cases (req.device == [])) [
      | inl every ↦ rw (waits, every) (run_status _ r)
      | inr one ↦
          rw (waits, one)
            (found_status fates req.device r (find_device api format_time req.device r.cfg.devices)
              ∙ turned (in_inventory req.device r.cfg.devices) (if r.busy then 409 else 200) 400
                  (found_in req.device r.cfg.devices))
    ]
  ]
