-- ===== src/Main/Upkeep/Stopping.antt =====
-- What the agent of src/main.cpp writes of the end of a run.
use Prim.Native.String.{String}
use min_bp.Prelude.{ℕ, ◌≡◌, refl, ap, ◌∙◌, [], ◌∷◌, ◌++◌, some, Bool, true, false}
use min_bp.Event.{HvEvent, EventType, EventPayload, empty_cpuid}
use min_bp.Kvm.{World, Kvm}
use min_bp.VCpu.{ExitReason}
use min_bp.EventDispatcher.{publish}
use min_bp.InstructionTrapper.{Session, publish_to, dispatch_exit}
use min_bp.VmiAgent.{IntrospectionEvent, handle_hv_event}
use min_bp.VmiAgent.Summary.{describe}
use min_bp.VmiAgent.Summary.Line.{line, build_summary-line}
use min_bp.Main.State.{ProgramState}
use min_bp.Main.Wiring.{Bus, agent_handler}
use min_bp.Main.CpuidTable.Installed.{IsWired, publish-IsWired}

module _ {K : Type 0} (kvm : Kvm K) where
  -- The agent's log has one entry more in the second world, with that last part of its summary.
  abbrev pub Summarised : ℕ → String → World K ProgramState → World K ProgramState → Type 0
  Summarised id what w w' =
      (ie : IntrospectionEvent) × (w'.user.agent.event_log ≡ w.user.agent.event_log ++ ie ∷ [])
      × (ie.summary ≡ line id ie.snapshot.rip what)

  agent_handler-Summarised :
      (ev : HvEvent) (w : World K ProgramState)
      → Summarised ev.vcpu_id (describe ev.type ev.payload) w (agent_handler kvm ev w)
  unfolding agent_handler handle_hv_event
  agent_handler-Summarised ev w = (_, refl, build_summary-line ev _)

  publish-Summarised :
      (ev : HvEvent) (d : Bus kvm) (w : World K ProgramState)
      → IsWired kvm d
      → Summarised ev.vcpu_id (describe ev.type ev.payload) w (publish ev d w).1
  publish-Summarised ev d w wired =
      let (ie, logged, text) = agent_handler-Summarised ev w in
      (
        ie,
        ap (λ (u : World K ProgramState). u.user.agent.event_log)
              (publish-IsWired kvm ev d w wired).0
            ∙ logged,
        text,
      )

  publish_to-Summarised :
      (s : Session K ProgramState) (d : Bus kvm) (type : EventType) (payload : EventPayload)
      (with_rip : Bool)
      → IsWired kvm d
      → Summarised s.trapper.vcpu.id
          (describe type payload)
          s.world
          (publish_to kvm (some d) type payload with_rip s).world
  unfolding publish_to
  publish_to-Summarised s d type payload with_rip wired = publish-Summarised _ d _ wired

  -- In a session of the program with its dispatcher, a halt and a shutdown each add one entry to the
  -- agent's log, whose summary has the vCPU's number and the RIP of the entry's snapshot. After these
  -- it says HLT for the halt. For the shutdown it does not say SHUTDOWN, but reports a CPUID of
  -- zeros.
  pub stop_summaries :
      (s : Session K ProgramState) (d : Bus kvm)
      → s.trapper.dispatch ≡ some d
      → IsWired kvm d
      → Summarised s.trapper.vcpu.id "HLT" s.world (dispatch_exit kvm ExitReason.hlt s).1.world
        × Summarised s.trapper.vcpu.id "CPUID leaf=0x0 sub=0x0 => EAX=0x0 EBX=0x0 ECX=0x0 EDX=0x0"
            s.world
            (dispatch_exit kvm ExitReason.shutdown s).1.world
  unfolding dispatch_exit describe publish_to
  stop_summaries s d e wired = rw e (
    publish_to-Summarised s d EventType.guest_halt EventPayload.monostate true wired,
    publish_to-Summarised s d EventType.guest_shutdown (EventPayload.cpuid empty_cpuid) false wired,
  )
