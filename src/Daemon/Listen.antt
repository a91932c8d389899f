-- ===== src/Daemon/Listen.antt =====
-- internal/httpapi/server.go: New, Serve and shutdown. Binding and shutting down are parameters.
use jconfig.Prelude.{
  Bool, true, false, not, [], ◌++◌, ◌≡◌, inl, inr, refl, sym, ◌∙◌, Option, none, some, ◌==◌,
  nat_equality, list_equality, Bool-cases, if◌then◌else◌,
}
use jconfig.Strings.Basic.{Text, codes}

-- Config of the server: an empty management address disables that socket.
pub record HttpConfig : Type 0 where
  pub metrics_addr : Text
  pub metrics_path : Text
  pub management_addr : Text

-- Why Serve stops: the context ended, or the first error of a server.
pub data Stop : Type 0 where
  context_ended : Stop
  server_failed : Text → Stop

pub record Network (S : Type 0) : Type 0 where
  pub listen : S → Text → Option Text × S
  pub close_listener : S → Text → S
  -- http.Server.Shutdown, which closes the listener first; it may fail then
  pub shutdown : S → Text → Option Text × S

abbrev pub listen_error : Text → Text → Text
listen_error addr e = codes "listen on " ++ (addr ++ (codes ": " ++ e))

module _ {S : Type 0} (net : Network S) (cfg : HttpConfig) (stop : Stop) where
  abbrev pub managed : Bool
  managed = not (cfg.management_addr == [])

  -- shutdown: an error is logged.
  unfoldable pub shut_down : S → S
  shut_down s =
      let s' = (net.shutdown s cfg.metrics_addr).1 in
      if managed then (net.shutdown s' cfg.management_addr).1 else s'

  abbrev pub reason : Stop → Option Text
  reason context_ended = none
  reason (server_failed e) = some e

  abbrev pub serve_both : S → Option Text × S
  serve_both s = (reason stop, shut_down s)

  abbrev pub management_bound : Option Text × S → Option Text × S
  management_bound (some e, s) =
      (some (listen_error cfg.management_addr e), net.close_listener s cfg.metrics_addr)
  management_bound (none, s) = serve_both s

  abbrev pub metrics_bound : Option Text × S → Option Text × S
  metrics_bound (some e, s) = (some (listen_error cfg.metrics_addr e), s)
  metrics_bound (none, s) =
      if managed then management_bound (net.listen s cfg.management_addr) else serve_both s

  -- Serve
  unfoldable pub serve_http : S → Option Text × S
  unfolding shut_down
  serve_http s = metrics_bound (net.listen s cfg.metrics_addr)

  -- What the network promises, by the addresses that are listened on.
  pub record ListenLaws (bound : S → Text → Bool) : Type 0 where
    pub refused :
        (s : S) (addr e other : Text)
        → (net.listen s addr).0 ≡ some e
        → bound (net.listen s addr).1 other ≡ bound s other
    pub unrelated :
        (s : S) (addr other : Text)
        → (other == addr) ≡ false
        → bound (net.listen s addr).1 other ≡ bound s other
    pub closes : (s : S) (addr : Text) → bound (net.close_listener s addr) addr ≡ false
    pub keeps_other :
        (s : S) (addr other : Text)
        → bound s other ≡ false
        → (bound (net.close_listener s addr) other ≡ false)
          × (bound (net.shutdown s addr).1 other ≡ false)
    pub shuts : (s : S) (addr : Text) → bound (net.shutdown s addr).1 addr ≡ false

  module _ (bound : S → Text → Bool) (laws : ListenLaws bound) where
    abbrev BothFree : S → Type 0
    BothFree s = (bound s cfg.metrics_addr ≡ false) × (bound s cfg.management_addr ≡ false)

    shut_down-BothFree :
        (s : S) → (managed ≡ false → bound s cfg.management_addr ≡ false) → BothFree (shut_down s)
    unfolding shut_down
    shut_down-BothFree s h = elim (Bool-cases managed) [
      | inl on ↦ rw on (
        (laws.keeps_other _ cfg.management_addr cfg.metrics_addr (laws.shuts s cfg.metrics_addr)).1,
        laws.shuts (net.shutdown s cfg.metrics_addr).1 cfg.management_addr,
      )
      | inr off ↦ rw off (
        laws.shuts s cfg.metrics_addr,
        (laws.keeps_other s cfg.metrics_addr cfg.management_addr (h off)).1,
      )
    ]

    management_free :
        (s : S) (o : Option Text × S)
        → managed ≡ true
        → ((e : Text) → o.0 ≡ some e → bound o.1 cfg.management_addr ≡ false)
        → BothFree (management_bound o).1
    management_free s (some e, s') on h = (
      laws.closes s' cfg.metrics_addr,
      (laws.keeps_other s' cfg.metrics_addr cfg.management_addr (h e refl)).0,
    )
    management_free s (none, s') on h =
        shut_down-BothFree s' (λ off. absurd (let clash : true ≡ false = sym on ∙ off in cc))

    metrics_free :
        (o : Option Text × S)
        → ((e : Text) → o.0 ≡ some e → bound o.1 cfg.metrics_addr ≡ false)
        → bound o.1 cfg.management_addr ≡ false
        → BothFree (metrics_bound o).1
    metrics_free (some e, s) h k = (h e refl, k)
    metrics_free (none, s) h k = elim (Bool-cases managed) [
      | inl on ↦ rw on (
          management_free s (net.listen s cfg.management_addr) on
            (λ e q. laws.refused s cfg.management_addr e cfg.management_addr q ∙ k))
      | inr off ↦ rw off (shut_down-BothFree s (λ e. k))
    ]

    -- When Serve returns, with an error of either socket, of a server, or without one, neither address
    -- is listened on any more, if neither was before and they differ.
    pub serve_http-BothFree :
        (s : S)
        → bound s cfg.metrics_addr ≡ false
        → bound s cfg.management_addr ≡ false
        → (cfg.management_addr == cfg.metrics_addr) ≡ false
        → (bound (serve_http s).1 cfg.metrics_addr ≡ false)
          × (bound (serve_http s).1 cfg.management_addr ≡ false)
    unfolding serve_http
    serve_http-BothFree s h k differ =
        metrics_free (net.listen s cfg.metrics_addr)
          (λ e q. laws.refused s cfg.metrics_addr e cfg.metrics_addr q ∙ h)
          (laws.unrelated s cfg.metrics_addr cfg.management_addr differ ∙ k)
