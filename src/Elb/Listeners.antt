-- ===== src/Elb/Listeners.antt =====
-- client.go: ListListeners, DeleteListener, EnsureListener and DeleteListeners.
use swiss_otc_k8s_cloud_mana.Base.{
  ℕ, ◌&&◌, not, List, [], ◌∷◌, ◌++◌, Option, none, some, ◌==◌, if◌then◌else◌,
}
use swiss_otc_k8s_cloud_mana.Base.Text.{Text, lit}
use swiss_otc_k8s_cloud_mana.Json.{
  Decoder, is_object, text, Json, str, number, object, list_of, under,
}
use swiss_otc_k8s_cloud_mana.Api.{
  status, wrap, Result, ok, err, get, post, delete, Response, decoded, elb, Call, Reply, Prog, ret,
  call, check, check_as, first_listed, found_or, each_until, sent,
}
use swiss_otc_k8s_cloud_mana.Elb.Types.{ListenerInfo}
use swiss_otc_k8s_cloud_mana.Elb.Decoders.{listener_info, id_only, text_at, fits_at}

abbrev pub listeners_query : Text → Text
listeners_query lb_id = lit "/v3/elb/listeners?loadbalancer_id=" ++ lb_id

-- The listeners that an answer lists, as far as it decodes.
abbrev pub listed_listeners : Response → List ListenerInfo
listed_listeners = decoded (under (lit "listeners") (list_of listener_info))

unfoldable pub list_listeners : Text → Prog (Result (List ListenerInfo))
list_listeners lb_id =
    call (elb get (listeners_query lb_id) none)
      λ reply. check reply (λ resp. ret (ok (listed_listeners resp)))

abbrev pub delete_listener_call : Text → Call
delete_listener_call listener_id = elb delete (lit "/v3/elb/listeners/" ++ listener_id) none

unfoldable pub delete_listener : Text → Prog (Result (Unit {0}))
delete_listener listener_id = call (delete_listener_call listener_id) (sent λ e. e)

abbrev pub listener_query : Text → Text → Text
listener_query lb_id name =
    lit "/v3/elb/listeners?name=" ++ name ++ lit "&loadbalancer_id=" ++ lb_id

abbrev pub first_listener : Reply → Option Text
first_listener = first_listed (under (lit "listeners") (list_of id_only))

abbrev pub listener_body : Text → Text → Text → Text → ℕ → Json
listener_body lb_id pool_id name protocol port = object (
    (
      lit "listener",
      object (
          (lit "name", str name)
          ∷ (lit "protocol", str protocol)
          ∷ (lit "protocol_port", number port)
          ∷ (lit "loadbalancer_id", str lb_id)
          ∷ (lit "default_pool_id", str pool_id)
          ∷ []),
    )
    ∷ [])

abbrev pub created_listener : Response → Result (Unit {0})
created_listener resp =
    if not (resp.status_code == 201)
    then err (status (lit "failed to create listener") resp.status_code)
    else ok tt

unfoldable pub ensure_listener : Text → Text → Text → Text → ℕ → Prog (Result (Unit {0}))
ensure_listener lb_id pool_id name protocol port =
    call (elb get (listener_query lb_id name) none) λ reply.
      found_or (first_listener reply) (λ id. ret (ok tt))
        (call
          (elb post (lit "/v3/elb/listeners")
            (some (listener_body lb_id pool_id name protocol port)))
          λ created.
            check_as (lit "failed to create listener") created
              (λ resp. ret (created_listener resp)))

-- A listener with only its id and its name.
abbrev named_id : Decoder Text
named_id = record {
  read = λ j. text_at "id" j;
  fits = λ j. is_object j && fits_at text "id" j && fits_at text "name" j;
}

abbrev pub listed_ids : Response → List Text
listed_ids = decoded (under (lit "listeners") (list_of named_id))

unfoldable pub delete_listeners : Text → Prog (Result (Unit {0}))
delete_listeners lb_id = call (elb get (listeners_query lb_id) none) λ reply. check reply λ resp.
    each_until
      (λ id. call (delete_listener_call id) (sent (wrap (lit "failed to delete listener"))))
      (listed_ids resp)
