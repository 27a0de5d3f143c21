-- ===== src/MasterDiscovery/Cache.antt =====
-- The cache of discovered devices in the master.
use tsn_fieldbus.Base.{
  ℕ, zero, suc, ◌≡◌, refl, sym, subst, ap, ◌∙◌, arith, List, [], ◌∷◌, All, All-append, Option, none,
  some, Bool, true, false, Bool-cases, Option-cases, inl, inr, ltb, not, Result, ok, err,
  if◌then◌else◌,
}
use tsn_fieldbus.Base.Table.{Table, insert, contains_key, get-insert}
use tsn_fieldbus.Mac.{MacAddr, mac_beq_iff, mac_eq}
use tsn_fieldbus.Proto.{StatusCode}
use mathlib.Core.Option.{some-injective}
use tsn_fieldbus.Security.DiscoveryAuth.{
  DiscoveryAuthHandler, has_device, add_new_device, create_auth_tag,
}
use tsn_fieldbus.Sdcp.Header.{SdcpHeader, SdcpOpCode, discover_req}
use tsn_fieldbus.Sdcp.Header
use tsn_fieldbus.Sdcp.Tlv.{Tlv}
use tsn_fieldbus.SlaveDiscovery.{EthernetFrame}
use tsn_fieldbus.Security.Crypto.{Blake3}
use tsn_fieldbus.MasterDiscovery.{
  DiscoveredDevice, DiscoveryMaster, Observation, is_discovery_sync, send_built, send_frame,
  build_request_frame, tagged_request, tlv_bytes, broadcast_mac, next_transaction_id, unwrap_or,
  default_discovery_timeout,
}
use tsn_fieldbus.MasterDiscovery.Discover.{
  discover_devices, discover_loop, discover_turn, add_discovered, listen, found,
  process_discover_frame,
}

-- The devices that are listed are in the cache, and were not in the cache `before`.
pub record IsListed (before : Table MacAddr DiscoveredDevice) (m : DiscoveryMaster)
    (newly : List DiscoveredDevice) : Type 0 where
  pub kept :
      (k : MacAddr) → contains_key k before ≡ true → contains_key k m.discovered_devices ≡ true
  pub cached : All (λ d. contains_key d.mac_address m.discovered_devices ≡ true) newly
  pub new : All (λ d. contains_key d.mac_address before ≡ false) newly

contains_key-insert :
    (k j : MacAddr) (d : DiscoveredDevice) (t : Table MacAddr DiscoveredDevice)
    → contains_key j t ≡ true
    → contains_key j (insert k d t) ≡ true
unfolding contains_key
contains_key-insert k j d t h = ground (arith, get-insert k j d t)

contains_key-insert_self :
    (k : MacAddr) (d : DiscoveredDevice) (t : Table MacAddr DiscoveredDevice)
    → contains_key k (insert k d t) ≡ true
unfolding contains_key
contains_key-insert_self k d t = ground (arith, get-insert k k d t, mac_beq_iff k k)

All-kept :
    (t t' : Table MacAddr DiscoveredDevice) (ds : List DiscoveredDevice)
    → ((j : MacAddr) → contains_key j t ≡ true → contains_key j t' ≡ true)
    → All (λ d. contains_key d.mac_address t ≡ true) ds
    → All (λ d. contains_key d.mac_address t' ≡ true) ds
All-kept t t' [] keeps h = tt
All-kept t t' (d ∷ ds) keeps (here, rest) = (keeps d.mac_address here, All-kept t t' ds keeps rest)

not_before :
    (before t : Table MacAddr DiscoveredDevice) (k : MacAddr)
    → (contains_key k before ≡ true → contains_key k t ≡ true)
    → contains_key k t ≡ false
    → contains_key k before ≡ false
not_before before t k kept absent = ground (arith, kept)

module _ (b : Blake3) (before : Table MacAddr DiscoveredDevice) where
  add_discovered-IsListed :
      (m : DiscoveryMaster) (newly : List DiscoveredDevice) (found : Option DiscoveredDevice)
      → IsListed before m newly
      → let r = add_discovered b m newly found in IsListed before r.0 r.1
  unfolding add_discovered
  add_discovered-IsListed m newly none h = h
  add_discovered-IsListed m newly (some d) h =
      let t : Table MacAddr DiscoveredDevice = m.discovered_devices in
      let t' : Table MacAddr DiscoveredDevice = insert d.mac_address d t in
      let keeps : (j : MacAddr) → contains_key j t ≡ true → contains_key j t' ≡ true =
        λ j. contains_key-insert d.mac_address j d t in
      let cached : All (λ x. contains_key x.mac_address t' ≡ true) newly =
        All-kept t t' newly keeps h.cached in
      elim (Bool-cases (contains_key d.mac_address t)) [
        | inl known ↦
            rw known
              (record { kept = λ k was. keeps k (h.kept k was); cached = cached; new = h.new })
        | inr unknown ↦ rw unknown (record {
          kept = λ k was. keeps k (h.kept k was);
          cached =
              All-append (λ x. contains_key x.mac_address t' ≡ true) newly (d ∷ []) cached
                (contains_key-insert_self d.mac_address d t, tt);
          new =
              All-append (λ x. contains_key x.mac_address before ≡ false) newly (d ∷ []) h.new
                (not_before before t d.mac_address (h.kept d.mac_address) unknown, tt);
        })
      ]

  -- The predicate on a result that there is.
  abbrev ListsIn : Option (DiscoveryMaster × List DiscoveredDevice) → Type 0
  ListsIn o =
      (m' : DiscoveryMaster) (newly' : List DiscoveredDevice)
      → o ≡ some (m', newly')
      → IsListed before m' newly'

  ListsIn-if :
      (c : Bool) (x y : Option (DiscoveryMaster × List DiscoveredDevice))
      → ListsIn x
      → ListsIn y
      → ListsIn (if c then x else y)
  ListsIn-if true x y hx hy = hx
  ListsIn-if false x y hx hy = hy

  discover_loop-ListsIn :
      (fuel : ℕ) (m : DiscoveryMaster) (newly : List DiscoveredDevice) (transaction_id timeout : ℕ)
      (seen : ℕ → Observation)
      → IsListed before m newly
      → ListsIn (discover_loop b fuel m newly transaction_id timeout seen)
  unfolding discover_loop discover_turn
  discover_loop-ListsIn zero m newly transaction_id timeout seen h = λ m' newly' done. ground arith
  discover_loop-ListsIn (suc fuel) m newly transaction_id timeout seen h =
      let next : DiscoveryMaster × List DiscoveredDevice =
        discover_turn b m newly transaction_id (seen 0).received in
      let handled : DiscoveryAuthHandler × Option DiscoveredDevice =
        process_discover_frame b m.discovery_auth_handler transaction_id (seen 0).received in
      ListsIn-if (ltb (seen 0).elapsed timeout) _ _
        (discover_loop-ListsIn fuel next.0 next.1 transaction_id timeout (λ n. seen (suc n))
          (add_discovered-IsListed (record m { discovery_auth_handler = handled.0 }) newly handled.1
            (record { kept = h.kept; cached = h.cached; new = h.new })))
        (λ m' newly' done.
          let same : (m, newly) ≡ (m', newly') = some-injective _ _ done in
          subst (λ r. IsListed before r.0 r.1) same h)

module _ (b : Blake3) where
  -- Building and sending the request leaves the cache alone.
  tagged_request-cache :
      (m : DiscoveryMaster) (source target : MacAddr) (header : SdcpHeader) (tlv : List ℕ)
      (tagged : DiscoveryAuthHandler × Option (ℕ × List ℕ))
      → (tagged_request b m source target header tlv tagged).0.discovered_devices
        ≡ m.discovered_devices
  unfolding tagged_request
  tagged_request-cache m source target header tlv (auth, none) = refl
  tagged_request-cache m source target header tlv (auth, some (n, tag)) = refl

  build_request_frame-cache :
      (m : DiscoveryMaster) (target : MacAddr) (op_code : SdcpOpCode) (tx : ℕ) (tlv : Option Tlv)
      → (build_request_frame b m target op_code tx tlv).0.discovered_devices ≡ m.discovered_devices
  unfolding build_request_frame
  build_request_frame-cache m target op_code tx tlv = elim (Option-cases m.interface_mac) [
    | inl nowhere ↦ rw nowhere refl
    | inr (own, here) ↦
        let h : DiscoveryAuthHandler = m.discovery_auth_handler in
        let auth : DiscoveryAuthHandler =
          (if not (has_device h own) then add_new_device h own else h) in
        rw here (
          tagged_request-cache (record m { interface_mac = some own }) own target
            (Header.new op_code tx) (tlv_bytes tlv)
            (create_auth_tag b auth own (Header.new op_code tx) (tlv_bytes tlv)))
  ]

  send_built-cache :
      (delivers : Bool) (built : DiscoveryMaster × Result StatusCode EthernetFrame)
      → (send_built b delivers built).0.discovered_devices ≡ built.0.discovered_devices
  unfolding send_built send_frame
  send_built-cache true (m, ok frame) = refl
  send_built-cache false (m, ok frame) = refl
  send_built-cache delivers (m, err code) = refl

  listen-IsListed :
      (fuel tx timeout : ℕ) (seen : ℕ → Observation) (before : Table MacAddr DiscoveredDevice)
      (sent : DiscoveryMaster × Result StatusCode (Unit {0})) (m' : DiscoveryMaster)
      (newly : List DiscoveredDevice)
      → sent.0.discovered_devices ≡ before
      → listen b fuel tx timeout seen sent ≡ some (m', ok newly)
      → IsListed before m' newly
  unfolding listen found
  listen-IsListed fuel tx timeout seen before (m, err code) m' newly same done = ground arith
  listen-IsListed fuel tx timeout seen before (m, ok _) m' newly same done =
      elim (Option-cases (discover_loop b fuel m [] tx timeout seen)) [
        | inl out ↦ ground arith
        | inr (r, ended) ↦
            let here : r ≡ (m', newly) = ground arith in
            discover_loop-ListsIn b before fuel m [] tx timeout seen
              (record {
                kept = λ k was. subst (λ t. contains_key k t ≡ true) (sym same) was;
                cached = tt;
                new = tt;
              })
              m' newly (ended ∙ ap some here)
      ]

  -- The devices that a discovery returns are in the cache afterwards and were not before, and no device
  -- leaves the cache.
  pub discover_devices-IsListed :
      (fuel : ℕ) (m m' : DiscoveryMaster) (timeout : Option ℕ) (delivers : Bool)
      (seen : ℕ → Observation) (newly : List DiscoveredDevice)
      → discover_devices b fuel m timeout delivers seen ≡ some (m', ok newly)
      → IsListed m.discovered_devices m' newly
  unfolding discover_devices next_transaction_id
  discover_devices-IsListed fuel m m' timeout delivers seen newly done =
      elim (Bool-cases (is_discovery_sync m.device_state_manager)) [
        | inr other ↦ ground arith
        | inl sync ↦
            let t : DiscoveryMaster × ℕ = next_transaction_id m in
            let built : DiscoveryMaster × Result StatusCode EthernetFrame =
              build_request_frame b t.0 broadcast_mac discover_req t.1 none in
            let waited : listen b fuel t.1 (unwrap_or timeout default_discovery_timeout) seen
                  (send_built b delivers built)
                ≡ some (m', ok newly) =
              ground arith in
            listen-IsListed fuel t.1 (unwrap_or timeout default_discovery_timeout) seen
              m.discovered_devices (send_built b delivers built) m' newly
              (send_built-cache delivers built
                ∙ build_request_frame-cache t.0 broadcast_mac discover_req t.1 none)
              waited
      ]
