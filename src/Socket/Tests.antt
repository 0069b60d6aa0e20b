-- ===== src/Socket/Tests.antt =====
-- Runs of the line protocol on the inputs of daemon/tests/test_socket_server.py and others, and the
-- theorems at such inputs.
use flipper_agent_indicator.Prelude.{◌≡◌, refl, ◌↔◌, [], ◌∷◌, ◌++◌, some, ok, err, ◌>>=◌}
use flipper_agent_indicator.Text.{
  Str, codes, lstrip, rstrip, strip, is_space, before, after, contains,
}
use flipper_agent_indicator.Protocol.{claude, generic, running, done}
use flipper_agent_indicator.Socket.{
  parse_line, unknown_agent, unknown_key, expected_key_value, missing_fields, handle, sent,
  timed_out, closed, raised, finish, no_fields, agent_by_name, state_by_name,
}
use flipper_agent_indicator.Socket.Parse.{IsToken, joined, text_of, read_tokens}
use flipper_agent_indicator.Socket.Lines.{stripped, parse_line-joined}
use flipper_agent_indicator.Socket.Handle.{IsOverlong, handle-raised_iff}

parser : Unit {0}
unfolding parse_line strip lstrip rstrip is_space before after contains agent_by_name state_by_name
parser = tt

parse_runs :
    (parse_line (codes "agent=claude state=running text=Bash: rm -rf\n")
      ≡ ok (record { agent = claude; state = running; text = codes "Bash: rm -rf" }))
    × (parse_line (codes "state=done   agent=codex agent=generic")
        ≡ ok (record { agent = generic; state = done; text = [] }))
    × (parse_line (codes "agent=bogus state=done") ≡ err (unknown_agent (codes "bogus")))
    × (parse_line (codes "agent=claude") ≡ err missing_fields)
    × (parse_line (codes "hello agent=claude") ≡ err (expected_key_value (codes "hello")))
    × (parse_line (codes "foo=bar") ≡ err (unknown_key (codes "foo")))
unfolding parser
parse_runs = (refl, refl, refl, refl, refl, refl)

abbrev word : Str
word = codes "foo=1"

word-IsToken : IsToken word
unfolding contains rstrip is_space
word-IsToken = record { one_word = refl; no_text = refl; begins = refl; ends = refl }

parse_line-joined_example : parse_line (joined (word ∷ []) (some (codes "a b ")) ++ codes "\n") ≡ (
    read_tokens no_fields (word ∷ []) >>= λ f. finish f (text_of (stripped (some (codes "a b ")))))
parse_line-joined_example = parse_line-joined (word ∷ []) (some (codes "a b ")) (word-IsToken, tt)

handle-raised_iff_example :
    ((handle [] (sent (codes "agent=claude\n"))).1 ≡ raised)
    ↔ IsOverlong (sent (codes "agent=claude\n"))
handle-raised_iff_example = handle-raised_iff [] (sent (codes "agent=claude\n"))

-- A client that sends nothing in time is let go.
timed_out_closed : (handle [] timed_out).1 ≡ closed
unfolding handle
timed_out_closed = refl
