-- ===== src/SlaveApi/Streams.antt =====
-- Configuring streams through the service.
use tsn_fieldbus.Base.{
  ℕ, ◌≤◌, ◌≡◌, ◌≢◌, refl, sym, ap, subst, ◌∙◌, arith, List, [], ◌∷◌, All, none, some, true, false,
  ok, u16_max,
}
use tsn_fieldbus.Proto.{
  status_code_number, no_error, pre_op, StreamConfig, ProcessVariable, direction_try_from,
}
use tsn_fieldbus.TokenStore.{Crates, validate_token}
use tsn_fieldbus.StateMachine.{get_state}
use tsn_fieldbus.StreamStore.{elem, reset, add_stream_configs}
use tsn_fieldbus.StreamStore.Configs.{AreNew, IsStored, add_stream_configs_stores}
use tsn_fieldbus.SlaveApi.Access.{serve-accepted}
use tsn_fieldbus.SlaveApi.{
  SlaveApiService, status_response, configure_streams_request, validate_streams,
  validate_streams_from, handle, configure_streams, with_layout, store_streams, serve,
}

module _ (seen : List ℕ) (c : StreamConfig) (cs : List StreamConfig)
    (layout : List ProcessVariable) where
  -- The steps of the loop that a passed check has taken for the first stream.
  validate_streams_head :
      validate_streams_from seen (c ∷ cs) layout ≡ ok tt
      → (c.stream_id ≤ u16_max)
        × (elem c.stream_id seen ≡ false)
        × (direction_try_from c.direction ≢ none)
        × (validate_streams_from (c.stream_id ∷ seen) cs layout ≡ ok tt)
  unfolding validate_streams_from
  validate_streams_head h = (ground arith, ground arith, (λ unknown. ground arith), ground arith)

-- Streams that pass the validation of the service can be taken together by the store.
validate_streams_from-AreNew :
    (seen : List ℕ) (cs : List StreamConfig) (layout : List ProcessVariable)
    → validate_streams_from seen cs layout ≡ ok tt
    → AreNew seen cs
validate_streams_from-AreNew seen [] layout h = tt
validate_streams_from-AreNew seen (c ∷ cs) layout h =
    let (fits, fresh, directed, rest) = validate_streams_head seen c cs layout h in
    (fits, fresh, directed, validate_streams_from-AreNew (c.stream_id ∷ seen) cs layout rest)

validate_streams_from-AreNew-nil :
    (cs : List StreamConfig) (layout : List ProcessVariable)
    → validate_streams cs layout ≡ ok tt
    → AreNew [] cs
unfolding validate_streams
validate_streams_from-AreNew-nil cs layout h = validate_streams_from-AreNew [] cs layout h

module _ (x : Crates) where
  -- What the handler does when all its tests succeed.
  configure_streams-ok :
      (s : SlaveApiService) (streams : List StreamConfig) (layout : List ProcessVariable)
      → s.state_manager.state ≡ pre_op
      → validate_streams streams layout ≡ ok tt
      → (add_stream_configs (reset s.stream_store) streams).1 ≡ ok tt
      → handle x (configure_streams_request streams (ok layout)) s ≡ (
        record s { stream_store = (add_stream_configs (reset s.stream_store) streams).0 },
        status_response (status_code_number no_error),
      )
  unfolding handle configure_streams with_layout store_streams get_state
  configure_streams-ok s streams layout configuring valid done = ground arith

  -- In `PreOp`, a request with an accepted token whose streams pass the validation against the layout
  -- of the process image is answered without an error, and all its streams are stored.
  pub configure_streams_stores :
      (s : SlaveApiService) (token : List ℕ) (now : ℕ) (streams : List StreamConfig)
      (layout : List ProcessVariable)
      → (validate_token x s.token_store token now).1 ≡ true
      → s.state_manager.state ≡ pre_op
      → validate_streams streams layout ≡ ok tt
      → let r = serve x (some token) now (configure_streams_request streams (ok layout)) s in
        (r.1 ≡ ok (status_response (status_code_number no_error)))
        × All (IsStored r.0.stream_store.streams) streams
  configure_streams_stores s token now streams layout accepted configuring valid =
      let (done, stored) =
        add_stream_configs_stores s.stream_store streams
          (validate_streams_from-AreNew-nil streams layout valid) in
      let s' : SlaveApiService = record s {
        token_store = (validate_token x s.token_store token now).0;
      } in
      let handled = configure_streams-ok s' streams layout configuring valid done in
      subst
        (λ r.
          (r.1 ≡ ok (status_response (status_code_number no_error)))
          × All (IsStored r.0.stream_store.streams) streams)
        (sym (
          serve-accepted x s token now (configure_streams_request streams (ok layout)) accepted
          ∙ ap (λ r. (r.0, ok r.1)) handled))
        (refl, stored)
