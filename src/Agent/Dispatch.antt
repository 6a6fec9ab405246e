-- ===== src/Agent/Dispatch.antt =====
-- What becomes of a message that arrives (agent/agent/agent.c: message_received).
use yella.Prelude.{List, [], ◌∷◌, ◌++◌, Option, none, some, Text}
use yella.Parcel.{Parcel}
use yella.Parcel.RoundTrip.{to_second}
use yella.Agent.{Handler, Agent}

-- The call that a parcel makes, if there is a handler.
abbrev pub calls : Option Handler → Parcel → List (Handler × Parcel)
calls none pcl = []
calls (some hndlr) pcl = (hndlr, pcl) ∷ []

-- What a parcel with this recipient leaves of an agent.
abbrev pub received :
    {H S : Type 0} → Agent H S → Option Handler → Parcel → Option Text → Option (Agent H S)
received ag hndlr pcl none = none
received ag hndlr pcl (some recipient) =
    some (record ag { handled = ag.handled ++ calls hndlr (to_second pcl) })
