-- ===== src/DataNode/Life/Ends.antt =====
-- `Stop` may be called again and again (internal/datanode/datanode.go).
use fstorex.Base.{◌≡◌, refl, Bool, true, false, some, arith, String}
use fstorex.DataNode.Life.{Daemon, new_data_node, stop}

-- The channel is closed exactly where `stopOnce` has run.
abbrev pub IsSound : Daemon → Type 0
IsSound d = d.stop_closed ≡ d.stop_done

-- A new data node is sound.
pub new_data_node-IsSound :
    (fault : Bool) (mds_addr addr : String) (d : Daemon)
    → new_data_node fault mds_addr addr ≡ some d
    → IsSound d
unfolding new_data_node
new_data_node-IsSound true mds_addr addr d made = cc
new_data_node-IsSound false mds_addr addr d made = ground (arith, made)

-- `Stop` of a sound data node does not panic, leaves it sound, and its channel closed.
pub stop-IsSound :
    (d : Daemon)
    → IsSound d
    → (after : Daemon) × (stop d ≡ some after) × IsSound after × (after.stop_closed ≡ true)
unfolding stop
stop-IsSound d sound =
    (record d { stop_closed = true; stop_done = true }, ground (arith, sound), refl, refl)
