-- ===== src/Master/Packets/Status.antt =====
-- src/zm_master.cpp: zmMaster::checkStatus0 and zmMaster::checkStatus1.
use deconz.Prelude.{ℕ, ◌/◌, Bool, not, ◌&&◌, [], ◌∷◌, leb, ◌==◌, if◌then◌else◌, bit_and}
use deconz.Master.{
  device_state, net_state_changed, start_interpan_mode_done, start_interpan_mode_failed,
}
use deconz.Master.Requests.{read_parameter}
use deconz.Master.Requests.Network.{read_parameters}
use deconz.Master.Tasks.{has, que_get_start_network_confirm_status}
use deconz.Master.Packets.{Step, ◌then_do◌, when, tells, requests}

-- What a change of the network state leads to: `before` and `after` are `n0` and `n1`.
unfoldable pub net_changed : Bool → ℕ → ℕ → Step
net_changed app before after m =
    ((((m, device_state after ∷ [])
          then_do when ((after == 2) && (before == 1)) (requests (read_parameter app 0x05)))
        then_do when ((after == 2) && (before == 1)) (requests (read_parameter app 0x07)))
      then_do when ((after == 0) && (before == 1)) que_get_start_network_confirm_status)
    then_do tells (net_state_changed ∷ [])

-- `zmMaster::checkStatus0`
unfoldable pub check_status0 : Bool → ℕ → Step
check_status0 app s m =
    ((record m { status0 = s }, []) then_do when (has s 0x10) (requests (read_parameters app)))
    then_do when (not (bit_and m.status0 3 == bit_and s 3))
        (net_changed app (bit_and m.status0 3) (bit_and s 3))

-- The second half of `zmMaster::checkStatus1`: the inter-PAN state.
unfoldable pub check_ipan : ℕ → Step
check_ipan ipan m =
    let out =
      if not (m.ipan_state == 1)
      then []
      else if ipan == 2
      then start_interpan_mode_done ∷ []
      else if ipan == 0
      then start_interpan_mode_failed ∷ []
      else [] in
    if leb ipan 2 && not (ipan == m.ipan_state)
    then (record m { ipan_state = ipan }, out)
    else (m, [])

-- The first half: the ZLL state.
unfoldable pub check_zll : ℕ → Step
check_zll zll m =
    if leb zll 2 && not (zll == m.zll_state)
    then (record m { zll_state = zll }, net_state_changed ∷ [])
    else (m, [])

-- `zmMaster::checkStatus1`, with a second byte and without.
unfoldable pub set_status1 : ℕ → Step
set_status1 s1 m =
    ((record m { status1 = s1 }, []) then_do check_zll (bit_and s1 3))
    then_do check_ipan (bit_and s1 0x18 / 8)

unfoldable pub check_status1 : ℕ → ℕ → Step
check_status1 s s1 = when (has s 0x80) (set_status1 s1)
