-- ===== src/Protocol/Values.antt =====
-- Agents and states have different values.
use flipper_agent_indicator.Prelude.{◌≡◌, sym, ap, ◌∙◌, ok_inj}
use flipper_agent_indicator.Protocol.{AgentId, State, agent_value, state_value, agent_of, state_of}
use flipper_agent_indicator.Protocol.RoundTrip.{agent_of-agent_value, state_of-state_value}

pub agent_value_inj : (a b : AgentId) → agent_value a ≡ agent_value b → a ≡ b
agent_value_inj a b h =
    ok_inj (sym (agent_of-agent_value a) ∙ ap agent_of h ∙ agent_of-agent_value b)

pub state_value_inj : (a b : State) → state_value a ≡ state_value b → a ≡ b
state_value_inj a b h =
    ok_inj (sym (state_of-state_value a) ∙ ap state_of h ∙ state_of-state_value b)
