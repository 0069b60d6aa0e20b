-- ===== src/Server/Laws.antt =====
-- What socket_server.py relies on of the file system and the sockets, and what follows of `start` and
-- `stop`.
use flipper_agent_indicator.Prelude.{ℕ, ◌≡◌, refl, ap, ◌∙◌, sym, Bool, false, none, some}
use flipper_agent_indicator.Server.{
  file_not_found, other_error, Effect, System, next, unless_missing, prepared, start, stop,
}

-- The documented behaviour: a path that was removed, or that is found missing, does not exist; a
-- connection needs the path; the server that listens last is reached, and changing the mode of its file
-- changes nothing in that; a server that is closed does not become another one.
pub record IsSystem {S : Type 0} (sys : System S) : Type 0 where
  pub unlink_removes : (s t : S) → sys.unlink s ≡ (t, none) → sys.exists t ≡ false
  pub unlink_misses : (s t : S) → sys.unlink s ≡ (t, some file_not_found) → sys.exists t ≡ false
  pub connect_needs : (s : S) → sys.exists s ≡ false → sys.connect s ≡ none
  pub listen_reaches : (k : ℕ) (s t : S) → sys.listen k s ≡ (t, none) → sys.connect t ≡ some k
  pub chmod_keeps : (s t : S) → sys.chmod s ≡ (t, none) → sys.connect t ≡ sys.connect s

next-eq-none :
    {S : Type 0} (first : Effect S) (call : S → Effect S) {t : S}
    → next first call ≡ (t, none)
    → (s : S) × (first ≡ (s, none)) × (call s ≡ (t, none))
unfolding next
next-eq-none (s, none) call h = (s, refl, h)
next-eq-none (s, some e) call h = cc

module _ {S : Type 0} (sys : System S) (laws : IsSystem sys) where
  -- A server that has started is reached, whatever was at its path.
  pub connect-start :
      (process : ℕ) (s t : S) → start sys process s ≡ (t, none) → sys.connect t ≡ some process
  unfolding start
  connect-start process s t h =
      let (bound, listened, moded) =
        next-eq-none (next (prepared sys s) (sys.listen process)) sys.chmod h in
      let (free, _, listens) = next-eq-none (prepared sys s) (sys.listen process) listened in
      laws.chmod_keeps bound t moded ∙ laws.listen_reaches process free bound listens

  unlinked :
      (s : S) (e : Effect S) → sys.unlink s ≡ e → unless_missing e.1 ≡ none → sys.exists e.0 ≡ false
  unfolding unless_missing
  unlinked s (t, none) same h = laws.unlink_removes s t same
  unlinked s (t, some file_not_found) same h = laws.unlink_misses s t same
  unlinked s (t, some (other_error n)) same h = cc

  -- A server that has stopped without an exception leaves no path, so that nothing is reached.
  pub connect-stop :
      (process : ℕ) (started : Bool) (s t : S)
      → stop sys process started s ≡ (t, none)
      → sys.connect t ≡ none
  unfolding stop
  connect-stop process started s t h = laws.connect_needs t (
      ap sys.exists (sym (ap (λ (e : Effect S). e.0) h))
      ∙ unlinked _ _ refl (ap (λ (e : Effect S). e.1) h))
