-- ===== src/SlaveApi/Access.antt =====
-- What a request can do, by its token and by the state of the device.
use tsn_fieldbus.Base.{
  ℕ, ◌≡◌, ◌≢◌, refl, sym, ap, subst, ◌∙◌, arith, List, Option, none, some, true, false, Bool-cases,
  inl, inr, Result, ok, err, ◌==◌,
}
use tsn_fieldbus.Proto.{
  StatusCode, DeviceState, init, discovery_sync, pre_op, safe_op, op, error, shutdown,
  device_state_number, StreamConfig, ProcessVariable,
}
use tsn_fieldbus.StateMachine.{get_state}
use tsn_fieldbus.StateMachine.Transitions.{set_target_state_cases}
use tsn_fieldbus.DeviceStatus.Fields.{state-update_state}
use tsn_fieldbus.TokenStore.{TokenStore, Crates, validate_token}
use tsn_fieldbus.SlaveApi.{
  SlaveApiService, unauthenticated, Request, set_target_state_request, get_status_request,
  get_log_request, get_device_info_request, get_layout_request, configure_streams_request,
  authenticated, handle, set_target_state, get_device_status_log, get_device_info,
  get_process_data_layout, configure_streams, with_layout, store_streams, serve,
}

number-pre_op :
    (d : DeviceState) → d ≢ pre_op → (device_state_number d == device_state_number pre_op) ≡ false
number-pre_op pre_op h = absurd (h refl)
number-pre_op init h = refl
number-pre_op discovery_sync h = refl
number-pre_op safe_op h = refl
number-pre_op op h = refl
number-pre_op error h = refl
number-pre_op shutdown h = refl

module _ (x : Crates) where
  -- A request with an accepted token is handled.
  pub serve-accepted :
      (s : SlaveApiService) (token : List ℕ) (now : ℕ) (request : Request x)
      → (validate_token x s.token_store token now).1 ≡ true
      → serve x (some token) now request s ≡ (
          let r =
            handle x request
              (record s { token_store = (validate_token x s.token_store token now).0 }) in
          (r.0, ok r.1))
  unfolding serve authenticated
  serve-accepted s token now request accepted = rw (accepted, serve, authenticated) refl

  -- A request without an accepted token is refused, and changes nothing but that expired tokens are
  -- removed.
  pub serve_refuses :
      (s : SlaveApiService) (token : List ℕ) (now : ℕ) (request : Request x)
      → (validate_token x s.token_store token now).1 ≡ false
      → serve x (some token) now request s ≡ (
        record s { token_store = (validate_token x s.token_store token now).0 },
        err unauthenticated,
      )
  unfolding serve authenticated
  serve_refuses s token now request refused = rw (refused, serve, authenticated) refl

  -- The part of the state that a predicate speaks of, whatever the token.
  serve-cases :
      (P : SlaveApiService → Type 0) (s : SlaveApiService) (token : Option (List ℕ)) (now : ℕ)
      (request : Request x)
      → P s
      → ((t : TokenStore) → P s → P (record s { token_store = t }))
      → ((t : TokenStore)
          → P (record s { token_store = t })
          → P (handle x request (record s { token_store = t })).0)
      → P (serve x token now request s).0
  unfolding serve authenticated
  serve-cases P s none now request holds pruned handled = holds
  serve-cases P s (some token) now request holds pruned handled =
      let t : TokenStore = (validate_token x s.token_store token now).0 in
      elim (Bool-cases (validate_token x s.token_store token now).1) [
        | inl accepted ↦
            subst (λ r. P r.0) (sym (serve-accepted s token now request accepted))
              (handled t (pruned t holds))
        | inr refused ↦
            subst (λ r. P r.0) (sym (serve_refuses s token now request refused)) (pruned t holds)
      ]

  -- The status shows the state that the state machine is in.
  abbrev pub IsShown : SlaveApiService → Type 0
  IsShown s = s.status_store.current.state ≡ device_state_number s.state_manager.state

  configure_streams-keeps :
      (s : SlaveApiService) (streams : List StreamConfig)
      (layout : Result StatusCode (List ProcessVariable))
      → ((configure_streams x streams layout s).0.status_store ≡ s.status_store)
        × ((configure_streams x streams layout s).0.state_manager ≡ s.state_manager)
  unfolding configure_streams with_layout store_streams
  configure_streams-keeps s streams layout = (ground arith, ground arith)

  set_target_state-IsShown :
      (s : SlaveApiService) (target : DeviceState) (now : ℕ)
      → IsShown s
      → IsShown (set_target_state x target now s).0
  unfolding set_target_state
  set_target_state-IsShown s target now shown =
      elim (set_target_state_cases s.state_manager target) [
        | inl moved ↦ ground (arith, state-update_state s.status_store target now)
        | inr refused ↦ ground arith
      ]

  -- No request makes the status show another state than the state machine's.
  pub serve-IsShown :
      (s : SlaveApiService) (token : Option (List ℕ)) (now : ℕ) (request : Request x)
      → IsShown s
      → IsShown (serve x token now request s).0
  unfolding handle get_device_info get_process_data_layout get_device_status_log
  serve-IsShown s token now (set_target_state_request target later) shown =
      serve-cases IsShown s token now (set_target_state_request target later) shown (λ t h. h)
        (λ t h. set_target_state-IsShown (record s { token_store = t }) target later h)
  serve-IsShown s token now get_status_request shown =
      serve-cases IsShown s token now get_status_request shown (λ t h. h) (λ t h. h)
  serve-IsShown s token now (get_log_request offset limit) shown =
      serve-cases IsShown s token now (get_log_request offset limit) shown (λ t h. h) (λ t h. h)
  serve-IsShown s token now (get_device_info_request (ok info)) shown =
      serve-cases IsShown s token now (get_device_info_request (ok info)) shown (λ t h. h)
        (λ t h. h)
  serve-IsShown s token now (get_device_info_request (err code)) shown =
      serve-cases IsShown s token now (get_device_info_request (err code)) shown (λ t h. h)
        (λ t h. h)
  serve-IsShown s token now (get_layout_request (ok layout)) shown =
      serve-cases IsShown s token now (get_layout_request (ok layout)) shown (λ t h. h) (λ t h. h)
  serve-IsShown s token now (get_layout_request (err code)) shown =
      serve-cases IsShown s token now (get_layout_request (err code)) shown (λ t h. h) (λ t h. h)
  serve-IsShown s token now (configure_streams_request streams layout) shown =
      serve-cases IsShown s token now (configure_streams_request streams layout) shown (λ t h. h)
        (λ t h.
          let (status, manager) =
            configure_streams-keeps (record s { token_store = t }) streams layout in
          ap (λ u. u.current.state) status
          ∙ h
          ∙ sym (ap (λ m. device_state_number m.state) manager))

  configure_streams-elsewhere :
      (s : SlaveApiService) (streams : List StreamConfig)
      (layout : Result StatusCode (List ProcessVariable))
      → s.state_manager.state ≢ pre_op
      → (configure_streams x streams layout s).0.stream_store ≡ s.stream_store
  unfolding configure_streams get_state
  configure_streams-elsewhere s streams layout elsewhere =
      let no = number-pre_op s.state_manager.state elsewhere in ground arith

  set_target_state-keeps :
      (s : SlaveApiService) (target : DeviceState) (now : ℕ)
      → (set_target_state x target now s).0.stream_store ≡ s.stream_store
  unfolding set_target_state
  set_target_state-keeps s target now = ground arith

  -- Outside `PreOp` no request changes the configured streams.
  pub serve-streams :
      (s : SlaveApiService) (token : Option (List ℕ)) (now : ℕ) (request : Request x)
      → s.state_manager.state ≢ pre_op
      → (serve x token now request s).0.stream_store ≡ s.stream_store
  unfolding handle get_device_info get_process_data_layout get_device_status_log
  serve-streams s token now (set_target_state_request target later) elsewhere =
      serve-cases (λ r. r.stream_store ≡ s.stream_store) s token now
        (set_target_state_request target later) refl (λ t h. refl)
        (λ t h. set_target_state-keeps (record s { token_store = t }) target later)
  serve-streams s token now get_status_request elsewhere =
      serve-cases (λ r. r.stream_store ≡ s.stream_store) s token now get_status_request refl
        (λ t h. refl) (λ t h. refl)
  serve-streams s token now (get_log_request offset limit) elsewhere =
      serve-cases (λ r. r.stream_store ≡ s.stream_store) s token now (get_log_request offset limit)
        refl (λ t h. refl) (λ t h. refl)
  serve-streams s token now (get_device_info_request (ok info)) elsewhere =
      serve-cases (λ r. r.stream_store ≡ s.stream_store) s token now
        (get_device_info_request (ok info)) refl (λ t h. refl) (λ t h. refl)
  serve-streams s token now (get_device_info_request (err code)) elsewhere =
      serve-cases (λ r. r.stream_store ≡ s.stream_store) s token now
        (get_device_info_request (err code)) refl (λ t h. refl) (λ t h. refl)
  serve-streams s token now (get_layout_request (ok layout)) elsewhere =
      serve-cases (λ r. r.stream_store ≡ s.stream_store) s token now
        (get_layout_request (ok layout)) refl (λ t h. refl) (λ t h. refl)
  serve-streams s token now (get_layout_request (err code)) elsewhere =
      serve-cases (λ r. r.stream_store ≡ s.stream_store) s token now (get_layout_request (err code))
        refl (λ t h. refl) (λ t h. refl)
  serve-streams s token now (configure_streams_request streams layout) elsewhere =
      serve-cases (λ r. r.stream_store ≡ s.stream_store) s token now
        (configure_streams_request streams layout) refl (λ t h. refl)
        (λ t h. configure_streams-elsewhere (record s { token_store = t }) streams layout elsewhere)
