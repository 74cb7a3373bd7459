-- ===== src/Update/Strategy.antt =====
-- The choice of the flow of an update (src/features/event-client/domain/strategy/update-flow).
use ms_calendar_service.Base.{Option, none, some, Bool, true, List, [], ◌∷◌, if◌then◌else◌}

pub data UpdateFlow : Type 0 where
  pure_class_edit fast_path_single rebuild_booking : UpdateFlow

pub record FlowContext : Type 0 where
  pub is_pure_class_edit : Bool
  pub fast_path_single : Bool

-- `canHandle` of the three strategies.
unfoldable pub can_handle : UpdateFlow → FlowContext → Bool
can_handle pure_class_edit ctx = ctx.is_pure_class_edit
can_handle UpdateFlow.fast_path_single ctx = ctx.fast_path_single
can_handle rebuild_booking ctx = true

-- `none` is the thrown error.
unfoldable pub resolve_update_flow_strategy : List UpdateFlow → FlowContext → Option UpdateFlow
resolve_update_flow_strategy [] ctx = none
resolve_update_flow_strategy (s ∷ strategies) ctx =
    if can_handle s ctx then some s else resolve_update_flow_strategy strategies ctx

-- `updateFlowStrategies`
abbrev pub update_flow_strategies : List UpdateFlow
update_flow_strategies = pure_class_edit ∷ UpdateFlow.fast_path_single ∷ rebuild_booking ∷ []
