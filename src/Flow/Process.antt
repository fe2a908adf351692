-- ===== src/Flow/Process.antt =====
-- src/ti_features.cpp, `traffic_process`: the state machine of a flow.
-- The slot `*pme` of the platform is an Option; a call yields the slot, what the flow's features
-- were computed from, where it ended, and the answer.
use ti_features.Prelude.{ℕ, Bool, true, false, Option, none, some}
use ti_features.Double.{Double}
use ti_features.Config.{Config}
use ti_features.Flow.{
  FlowState, OpState, pending, data_state, close, other_state, Call, Memory, System,
}
use ti_features.Flow.Packet.{time_of, state_flag}
use ti_features.Flow.Init.{flow_state_init}
use ti_features.Flow.Data.{process_data}

-- APP_STATE_GIVEME and APP_STATE_DROPME
pub data Answer : Type 0 where
  give_me drop_me : Answer

-- What a call leaves: the slot, and the state that `flow_state_compute_features` was given.
pub record Outcome (D : Type 0) : Type 0 where
  pub slot : Option (FlowState D)
  pub closed : Option (FlowState D)
  pub answer : Answer

module _ {D : Type 0} ⦃d : Double D⦄ where
  -- The state that `flow_state_init` has set up, with the time of its first packet.
  unfoldable pub open_flow : Bool → Option (FlowState D) → ℕ → Option (FlowState D)
  open_flow true (some f) ts_us = some (record f { flow_start_us = ts_us })
  open_flow true none ts_us = none
  open_flow false o ts_us = none

  -- A new flow's state; `none` where `dictator_malloc` or `flow_state_init` fails.
  unfoldable pub create : Config → Memory → Call → Option (FlowState D)
  unfolding open_flow
  create cfg m c = open_flow m.has_state (flow_state_init cfg m) (time_of cfg c)

  -- The branch OP_STATE_DATA.
  unfoldable pub on_data : Config → System → Memory → Call → Option (FlowState D) → Outcome D
  on_data cfg sys m c none = record { slot = none; closed = none; answer = give_me }
  on_data cfg sys m c (some f) = record {
    slot = some (process_data cfg sys m c f);
    closed = none;
    answer = give_me;
  }

  -- The branch OP_STATE_PENDING once the flow should have a state; it goes on with that of
  -- OP_STATE_DATA.
  unfoldable pub on_first : Config → System → Memory → Call → Option (FlowState D) → Outcome D
  unfolding on_data
  on_first cfg sys m c none = record { slot = none; closed = none; answer = drop_me }
  on_first cfg sys m c (some f) =
      on_data cfg sys m c (some (record f { last_pkt_us = time_of cfg c }))

  -- The branch OP_STATE_PENDING.
  unfoldable pub on_pending : Config → System → Memory → Call → Option (FlowState D) → Outcome D
  unfolding on_first
  on_pending cfg sys m c (some f) = on_first cfg sys m c (some f)
  on_pending cfg sys m c none = on_first cfg sys m c (create cfg m c)

  -- The branch OP_STATE_CLOSE.
  unfoldable pub on_close : Option (FlowState D) → Outcome D
  on_close none = record { slot = none; closed = none; answer = give_me }
  on_close (some f) = record { slot = none; closed = some f; answer = drop_me }

  -- The switch on the state of the stream.
  unfoldable pub on_state :
      OpState → Config → System → Memory → Call → Option (FlowState D) → Outcome D
  unfolding on_data on_pending on_close
  on_state pending cfg sys m c pme = on_pending cfg sys m c pme
  on_state data_state cfg sys m c pme = on_data cfg sys m c pme
  on_state close cfg sys m c pme = on_close pme
  on_state other_state cfg sys m c pme = record { slot = pme; closed = none; answer = give_me }

  -- `traffic_process`, for pointers that are not null.
  unfoldable pub traffic_process :
      Config → System → Memory → Call → Option (FlowState D) → Outcome D
  unfolding on_state
  traffic_process cfg sys m c pme = on_state (state_flag c) cfg sys m c pme
