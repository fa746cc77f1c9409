-- ===== src/Server/Presence/Sockets.antt =====
-- internal/server/wss.go: the map of WebSocket clients against the client objects. Every key points
-- to a client of that name.
use im_system.Common.{
  ℕ, ◌≡◌, refl, ap, subst, false, Option, none, some, List, [], ◌∷◌, ◌++◌, arith, get_elem?, length,
  Text, text_eq, text_eq_iff, Bool-cases, inl, inr, Assoc, lookup, insert, without, Distinct,
  lookup-insert, lookup-without, insert-Distinct, without-Distinct,
}
use im_system.Server.{WsClient, WsOutgoing, accept, modify}
use im_system.Server.Objects.{applied, get_elem?-modify, get_elem?-append_new, get_elem?-length}

abbrev pub client_name : Option WsClient → Option Text
client_name none = none
client_name (some w) = some w.name

pub record SocketsOk (conns : Assoc ℕ) (clients : List WsClient) : Type 0 where
  pub keys : Distinct conns
  pub points :
      (k : Text) (c : ℕ) → lookup k conns ≡ some c → client_name (get_elem? clients c) ≡ some k

pub SocketsOk-same :
    {conns conns' : Assoc ℕ} {clients clients' : List WsClient}
    → conns ≡ conns'
    → clients ≡ clients'
    → SocketsOk conns clients
    → SocketsOk conns' clients'
SocketsOk-same {conns} {conns'} {clients} {clients'} e f v =
    subst (λ m. SocketsOk m clients') e (subst (λ cs. SocketsOk conns cs) f v)

-- A change of a client that keeps its name.
pub modify-SocketsOk :
    (conns : Assoc ℕ) (clients : List WsClient) (c : ℕ) (f : WsClient → WsClient)
    → ((w : WsClient) → (f w).name ≡ w.name)
    → SocketsOk conns clients
    → SocketsOk conns (modify c f clients)
modify-SocketsOk conns clients c f h v =
    let kept : (o : Option WsClient) → client_name (applied f o) ≡ client_name o = elim [
      | none ↦ refl
      | some w ↦ ap some (h w)
    ] in
    record {
      keys = v.keys;
      points = λ k d e.
          rw (get_elem?-modify c d f clients)
            (ground (arith, kept (get_elem? clients d), v.points k d e));
    }

name-accept : (msg : WsOutgoing) (w : WsClient) → (accept msg w).name ≡ w.name
unfolding accept
name-accept msg w = ground arith

pub write_ws-SocketsOk :
    (conns : Assoc ℕ) (clients : List WsClient) (c : ℕ) (msg : WsOutgoing)
    → SocketsOk conns clients
    → SocketsOk conns (modify c (accept msg) clients)
write_ws-SocketsOk conns clients c msg v =
    modify-SocketsOk conns clients c (accept msg) (name-accept msg) v

pub without-SocketsOk :
    (conns : Assoc ℕ) (clients : List WsClient) (name : Text)
    → SocketsOk conns clients
    → SocketsOk (without name conns) clients
without-SocketsOk conns clients name v = record {
  keys = without-Distinct name conns v.keys;
  points = λ k c e. v.points k c (ground (arith, lookup-without name k conns, e));
}

pub add-SocketsOk :
    (conns : Assoc ℕ) (clients : List WsClient) (client : WsClient)
    → SocketsOk conns clients
    → SocketsOk (insert client.name (length clients) conns) (clients ++ client ∷ [])
add-SocketsOk conns clients client v = record {
  keys = insert-Distinct client.name (length clients) conns v.keys;
  points = λ k c e. elim (Bool-cases (text_eq client.name k)) [
    | inl same ↦ ground (
      arith,
      lookup-insert client.name k (length clients) conns,
      get_elem?-append_new clients client c,
      text_eq_iff client.name k,
      e,
    )
    | inr apart ↦
        let old : lookup k conns ≡ some c =
          ground (arith, lookup-insert client.name k (length clients) conns, e) in
        ground
          (arith, get_elem?-append_new clients client c, get_elem?-length clients, v.points k c old)
  ];
}

-- The client under one name gets another that nobody has.
pub rename-SocketsOk :
    (conns : Assoc ℕ) (clients : List WsClient) (old new : Text) (c : ℕ)
    → lookup old conns ≡ some c
    → SocketsOk conns clients
    → SocketsOk (insert new c (without old conns)) (modify c (λ w. record w { name = new }) clients)
rename-SocketsOk conns clients old new c here v = record {
  keys = insert-Distinct new c (without old conns) (without-Distinct old conns v.keys);
  points = λ k d e. elim (Bool-cases (text_eq new k)) [
    | inl same ↦ ground (
      arith,
      lookup-insert new k c (without old conns),
      get_elem?-modify c d (λ w. record w { name = new }) clients,
      text_eq_iff new k,
      v.points old c here,
      e,
    )
    | inr apart ↦
        let found : lookup k conns ≡ some d =
          ground
            (arith, lookup-insert new k c (without old conns), lookup-without old k conns, e) in
        let other : (text_eq old k) ≡ false =
          ground
            (arith, lookup-insert new k c (without old conns), lookup-without old k conns, e) in
        ground (
          arith,
          get_elem?-modify c d (λ w. record w { name = new }) clients,
          v.points old c here,
          v.points k d found,
          text_eq_iff old k,
          other,
        )
  ];
}
