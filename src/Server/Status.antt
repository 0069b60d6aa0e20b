-- ===== src/Server/Status.antt =====
-- The command `flipper-indicator status` of daemon/flipper_indicator/cli.py, and what it shows of the
-- servers of several processes.
use flipper_agent_indicator.Prelude.{
  ℕ, ◌≡◌, ◌↔◌, refl, Bool, true, false, Bool-cases, Option-cases, ap, inl, inr, Option, none, some,
  if◌then◌else◌,
}
use flipper_agent_indicator.Server.{System, start, stop}
use flipper_agent_indicator.Server.Laws.{IsSystem, connect-start, connect-stop}

-- What the command says: that there is no socket, that the connection failed, or that the daemon is up;
-- or an exception of `config.load` or of `Path.expanduser` leaves it.
pub data Report : Type 0 where
  no_socket no_connection up uncaught : Report

-- The status of the process in the end; an exception that leaves it counts as 1.
abbrev pub exit_code : Report → ℕ
exit_code up = 0
exit_code _ = 1

-- s.connect(str(sock_path)), where an `OSError` is caught
unfoldable pub probe : Option ℕ → Report
probe none = no_connection
probe (some process) = up

module _ {S : Type 0} (sys : System S) where
  -- `status`; `found` says whether `config.load()` and `cfg.resolved_socket_path` returned.
  unfoldable pub status : Bool → S → Report
  unfolding probe
  status false s = uncaught
  status true s = if sys.exists s then probe (sys.connect s) else no_socket

  probe_iff : (c : Option ℕ) → (exit_code (probe c) ≡ 0) ↔ ((process : ℕ) × (c ≡ some process))
  unfolding probe
  probe_iff none = (λ h. cc, λ (process, h). cc)
  probe_iff (some process) = (λ h. (process, refl), λ h. refl)

  status-up : IsSystem sys → (s : S) {k : ℕ} → sys.connect s ≡ some k → status true s ≡ up
  unfolding status probe
  status-up laws s h = elim (Bool-cases (sys.exists s)) [
    | inl e ↦ rw (e, h) refl
    | inr e ↦ cc (laws.connect_needs s e, h)
  ]

  status-down : (s : S) → sys.connect s ≡ none → exit_code (status true s) ≡ 1
  unfolding status probe
  status-down s h =
      elim (sys.exists s) as (λ b. exit_code (if b then probe (sys.connect s) else no_socket) ≡ 1) [
        | true ↦ rw h refl
        | false ↦ refl
      ]

  -- `status` exits with 0 exactly if the path of the socket was found and a connection to it reaches a
  -- server.
  pub status-zero_iff :
      IsSystem sys
      → (found : Bool) (s : S)
      → (exit_code (status found s) ≡ 0)
        ↔ ((found ≡ true) × ((process : ℕ) × (sys.connect s ≡ some process)))
  unfolding status
  status-zero_iff laws false s = (λ h. cc, λ h. cc (h.0))
  status-zero_iff laws true s = (
    λ h. (
      refl,
      elim (Option-cases (sys.connect s)) [ inl e ↦ cc (status-down s e, h) | inr found ↦ found ],
    ),
    λ (_, (process, e)). ap exit_code (status-up laws s e),
  )

  -- A daemon that starts takes over the path, whatever stood there and whoever listened on it, so that
  -- connections reach it and `status` says that it is up. If any other process then stops, it removes
  -- the path, and `status` exits with 1, though nothing has stopped the daemon.
  pub stop-hides_other :
      IsSystem sys
      → (other daemon : ℕ) (s shared ended : S) → start sys daemon s ≡ (shared, none)
      → stop sys other true shared ≡ (ended, none)
      → (sys.connect shared ≡ some daemon)
        × (status true shared ≡ up)
        × (exit_code (status true ended) ≡ 1)
  stop-hides_other laws other daemon s shared ended starts stops =
      let reached : sys.connect shared ≡ some daemon =
        connect-start sys laws daemon s shared starts in
      (
        reached,
        status-up laws shared reached,
        status-down ended (connect-stop sys laws other true shared ended stops),
      )
