-- ===== src/Tests/Moves.antt =====
-- Agents that are made, destroyed and moved, at concrete inputs.
use min_bp.Prelude.{ℕ, ◌≡◌, refl, true, false, [], ◌∷◌, none, some, ◌++◌, if◌then◌else◌, arith}
use min_bp.Event.{EventType}
use min_bp.EventDispatcher.{subscribe_all, publish}
use min_bp.EventDispatcher.Routing.{publish_all}
use min_bp.VmiAgent
use min_bp.VmiAgent.{VmiAgent, attach, detach, handle_hv_event}
use min_bp.VmiAgent.Agents.{Cell, make, destroy, move_construct, move_assign}
use min_bp.VmiAgent.Agents.Bound.{log_at}
use min_bp.VmiAgent.Agents.Steps.{World, world}
use min_bp.VmiAgent.Agents.Lifetime.{Reach, here, more, makes, no_agents, Reach-logs}
use min_bp.VmiAgent.Agents.Moved.{move_construct_deaf}
use min_bp.VmiAgent.Agents.Overwritten.{move_assign_dangles}
use min_bp.Tests.Toy.{Toy, toy, machine}
use min_bp.Tests.Buses.{event}

abbrev nobody : World Toy ℕ
nobody = no_agents toy (machine []) 0

abbrev one_agent : World Toy ℕ
one_agent = world (make toy 7 none true nobody.dispatcher nobody.agents)

abbrev two_agents : World Toy ℕ
two_agents = world (make toy 8 none true one_agent.dispatcher one_agent.agents)

-- The object that the constructor makes.
abbrev new_cell : ℕ → Cell ℕ
new_cell id = record { agent = record VmiAgent.new { sub_id = id }; vm = none; dispatch = true }

one_agent-Reach : Reach toy nobody one_agent
one_agent-Reach = more here (makes 7 none true refl (omega arith))

two_agents-Reach : Reach toy nobody two_agents
unfolding make attach subscribe_all
two_agents-Reach = more one_agent-Reach (makes 8 none true refl (omega arith))

Reach-logs_example :
    ((publish (event EventType.io_read) two_agents.dispatcher two_agents.agents).1.fault ≡ false)
    × ((a : ℕ) (cell : Cell ℕ)
        → two_agents.agents.cells a ≡ some cell
        → log_at (publish (event EventType.io_read) two_agents.dispatcher two_agents.agents).1 a ≡ (
            if cell.dispatch
            then log_at two_agents.agents a ++ event EventType.io_read ∷ []
            else log_at two_agents.agents a))
Reach-logs_example =
    Reach-logs toy (machine []) 0 two_agents (event EventType.io_read) two_agents-Reach

move_construct_deaf_example :
    (let w = move_construct 9 7 one_agent.agents in
      let (d', w') = destroy 7 one_agent.dispatcher w in
      let es = event EventType.io_read ∷ event EventType.guest_halt ∷ [] in
      (log_at (publish_all es one_agent.dispatcher w).1 9 ≡ log_at one_agent.agents 7)
      × (log_at (publish_all es one_agent.dispatcher w).1 7 ≡ es)
      × (w'.cells 9 ≡ some (new_cell 1))
      × (log_at (publish_all es d' w').1 9 ≡ log_at one_agent.agents 7))
unfolding make attach subscribe_all
move_construct_deaf_example =
    move_construct_deaf toy (machine []) 0 one_agent 7 9 (new_cell 1)
      (event EventType.io_read ∷ event EventType.guest_halt ∷ []) one_agent-Reach refl refl refl

move_assign_dangles_example :
    (let w = move_assign 8 7 [] [] two_agents.agents in
      let (d1, w1) = destroy 7 two_agents.dispatcher w in
      let (d2, w2) = destroy 8 d1 w1 in
      (w2.fault ≡ false) × ((publish (event EventType.io_read) d2 w2).1.fault ≡ true))
unfolding make attach subscribe_all
move_assign_dangles_example =
    move_assign_dangles toy (machine []) 0 two_agents 7 8 (new_cell 1) (new_cell 2) [] []
      (event EventType.io_read) two_agents-Reach refl refl refl refl refl
