-- ===== src/MasterDiscovery/Loops.antt =====
-- The loops of the master's discovery end when the clock reaches the timeout.
use tsn_fieldbus.Base.{
  ℕ, zero, suc, ◌≤◌, ◌<◌, ◌≡◌, refl, sym, subst, not, if◌then◌else◌, arith, List, [], Option, none,
  some, Bool, true, false, ltb, Result, ok, err,
}
use tsn_fieldbus.Mac.{MacAddr}
use tsn_fieldbus.Proto.{StatusCode}
use tsn_fieldbus.Security.Crypto.{Blake3}
use tsn_fieldbus.Security.DiscoveryAuth.{DiscoveryAuthHandler}
use tsn_fieldbus.Sdcp.Header.{SdcpOpCode}
use tsn_fieldbus.MasterDiscovery.{
  DiscoveredDevice, DiscoveryMaster, Observation, unwrap_or, is_discovery_sync,
  default_unicast_timeout, default_discovery_timeout,
}
use tsn_fieldbus.MasterDiscovery.Wait.{check_response, wait_loop, wait_for_response}
use tsn_fieldbus.MasterDiscovery.Unicast.{await, finish, get_ip_config, set_ip_config}
use tsn_fieldbus.MasterDiscovery.Discover.{
  discover_loop, discover_turn, discover_devices, listen, found,
}

-- The fuel was enough.
abbrev pub Ends : {A : Type 0} → Option A → Type 0
Ends {A} o = (r : A) × (o ≡ some r)

Ends-if : {A : Type 0} (c : Bool) (x y : Option A) → Ends x → Ends y → Ends (if c then x else y)
Ends-if true x y hx hy = hx
Ends-if false x y hx hy = hy

Ends-over :
    {A : Type 0} (x y : Option A) (elapsed timeout : ℕ)
    → timeout ≤ elapsed
    → Ends y
    → Ends (if ltb elapsed timeout then x else y)
Ends-over x y elapsed timeout late hy = subst (λ c. Ends (if c then x else y)) early hy
  where
    early : false ≡ ltb elapsed timeout
    early = ground arith

-- What is done with a result keeps the end.
Ends-map :
    {A B : Type 0} (o : Option A) (f : Option A → Option B)
    → ((a : A) → Ends (f (some a)))
    → Ends o
    → Ends (f o)
Ends-map o f h (a, e) = subst (λ x. Ends (f x)) (sym e) (h a)

Ends-answer :
    {A B : Type 0} (o : Option A) (f : A → Option B) (rest : Option B)
    → ((a : A) → Ends (f a))
    → Ends rest
    → Ends (elim o [ some a ↦ f a | none ↦ rest ])
Ends-answer none f rest h k = k
Ends-answer (some a) f rest h k = h a

module _ (b : Blake3) where
  wait_loop-Ends :
      (k fuel : ℕ) (auth : DiscoveryAuthHandler) (source : MacAddr) (op_code : SdcpOpCode)
      (transaction_id timeout : ℕ) (seen : ℕ → Observation)
      → timeout ≤ (seen k).elapsed
      → k < fuel
      → Ends (wait_loop b fuel auth source op_code transaction_id timeout seen)
  unfolding wait_loop
  wait_loop-Ends k zero auth source op_code transaction_id timeout seen late room =
      absurd (omega arith)
  wait_loop-Ends zero (suc fuel) auth source op_code transaction_id timeout seen late room =
      Ends-over _ _ (seen 0).elapsed timeout late (_, refl)
  wait_loop-Ends (suc k) (suc fuel) auth source op_code transaction_id timeout seen late room =
      let answer : DiscoveryAuthHandler × Option (List ℕ) =
        check_response b auth source op_code transaction_id (seen 0).received in
      Ends-if (ltb (seen 0).elapsed timeout) _ _
        (Ends-answer answer.1 _ _ (λ tlv_payload. (_, refl))
          (wait_loop-Ends k fuel answer.0 source op_code transaction_id timeout (λ n. seen (suc n))
            late (omega arith)))
        (_, refl)

  discover_loop-Ends :
      (k fuel : ℕ) (m : DiscoveryMaster) (newly : List DiscoveredDevice)
      (transaction_id timeout : ℕ) (seen : ℕ → Observation)
      → timeout ≤ (seen k).elapsed
      → k < fuel
      → Ends (discover_loop b fuel m newly transaction_id timeout seen)
  unfolding discover_loop
  discover_loop-Ends k zero m newly transaction_id timeout seen late room = absurd (omega arith)
  discover_loop-Ends zero (suc fuel) m newly transaction_id timeout seen late room =
      Ends-over _ _ (seen 0).elapsed timeout late (_, refl)
  discover_loop-Ends (suc k) (suc fuel) m newly transaction_id timeout seen late room =
      let next : DiscoveryMaster × List DiscoveredDevice =
        discover_turn b m newly transaction_id (seen 0).received in
      Ends-if (ltb (seen 0).elapsed timeout) _ _
        (discover_loop-Ends k fuel next.0 next.1 transaction_id timeout (λ n. seen (suc n)) late
          (omega arith))
        (_, refl)

  wait_for_response-Ends :
      (k fuel : ℕ) (m : DiscoveryMaster) (source : MacAddr) (op_code : SdcpOpCode)
      (transaction_id timeout : ℕ) (seen : ℕ → Observation)
      → timeout ≤ (seen k).elapsed
      → k < fuel
      → Ends (wait_for_response b fuel m source op_code transaction_id timeout seen)
  unfolding wait_for_response
  wait_for_response-Ends k fuel m source op_code transaction_id timeout seen late room =
      Ends-map _
        (λ o. elim o [
          | none ↦ none
          | some (auth, result) ↦ some (record m { discovery_auth_handler = auth }, result)
        ])
        (λ r. (_, refl))
        (wait_loop-Ends k fuel _ source op_code transaction_id timeout seen late room)

  await-Ends :
      {A : Type 0} (parse : List ℕ → Result StatusCode A) (k fuel : ℕ) (target : MacAddr)
      (op_code : SdcpOpCode) (transaction_id timeout : ℕ) (seen : ℕ → Observation)
      (sent : DiscoveryMaster × Result StatusCode (Unit {0}))
      → timeout ≤ (seen k).elapsed
      → k < fuel
      → Ends (await b parse fuel target op_code transaction_id timeout seen sent)
  unfolding await finish
  await-Ends parse k fuel target op_code transaction_id timeout seen (m, ok _) late room =
      Ends-map _ (finish parse) (λ r. (_, refl))
        (wait_for_response-Ends k fuel m target op_code transaction_id timeout seen late room)
  await-Ends parse k fuel target op_code transaction_id timeout seen (m, err code) late room =
      (_, refl)

  listen-Ends :
      (k fuel transaction_id timeout : ℕ) (seen : ℕ → Observation)
      (sent : DiscoveryMaster × Result StatusCode (Unit {0}))
      → timeout ≤ (seen k).elapsed
      → k < fuel
      → Ends (listen b fuel transaction_id timeout seen sent)
  unfolding listen found
  listen-Ends k fuel transaction_id timeout seen (m, err code) late room = (_, refl)
  listen-Ends k fuel transaction_id timeout seen (m, ok _) late room =
      Ends-map _ (found b) (λ r. (_, refl))
        (discover_loop-Ends k fuel m [] transaction_id timeout seen late room)

  -- Every operation of the master returns, whatever the state, the transmitter and the receiver do,
  -- when its clock shows the timeout at some turn of the loop: fuel for one turn more than the turns
  -- before is enough.
  pub operations-terminate :
      (k fuel : ℕ) (m : DiscoveryMaster) (timeout : Option ℕ) (delivers : Bool)
      (seen : ℕ → Observation)
      → k < fuel
      → (unwrap_or timeout default_discovery_timeout ≤ (seen k).elapsed
          → Ends (discover_devices b fuel m timeout delivers seen))
        × ((target : MacAddr)
            → unwrap_or timeout default_unicast_timeout ≤ (seen k).elapsed
            → Ends (get_ip_config b fuel m target timeout delivers seen))
        × ((target : MacAddr) (ip netmask gateway : List ℕ)
            → unwrap_or timeout default_unicast_timeout ≤ (seen k).elapsed
            → Ends (set_ip_config b fuel m target ip netmask gateway timeout delivers seen))
  unfolding discover_devices get_ip_config set_ip_config
  operations-terminate k fuel m timeout delivers seen room = (
    λ late.
        Ends-if (not (is_discovery_sync m.device_state_manager)) _ _ (_, refl)
          (listen-Ends k fuel _ _ seen _ late room),
    λ target late.
        Ends-if (not (is_discovery_sync m.device_state_manager)) _ _ (_, refl)
          (await-Ends _ k fuel target _ _ _ seen _ late room),
    λ target ip netmask gateway late.
        Ends-if (not (is_discovery_sync m.device_state_manager)) _ _ (_, refl)
          (await-Ends _ k fuel target _ _ _ seen _ late room),
  )
