-- ===== src/Runner/Identity/Ids.antt =====
-- runner/identity.go against the broker: which identities a runner can have.
use hackathon.Common.{
  ℕ, ◌≡◌, refl, sym, subst, ap, ◌⊎◌, inl, inr, true, false, Option, none, some, List, [], ◌∷◌,
  length, arith, Bool-cases, ◌==◌,
}
use hackathon.Text.{Text, codes, text_eq, is_empty, hex_encode}
use hackathon.Text.Laws.{hex_encode_lower, length-hex_encode, text_eq_sound}
use hackathon.Broker.Store.{is_runner_id}
use hackathon.Runner.Identity.{
  Identity, IdentityDeps, Resolved, found, lost, of_read, after, EcsContainerMeta, EcsNetwork,
  first_address, of_meta, of_body, read_all, of_hostname, generate_runner_id, default_http_get,
  private_host_from_ecs, private_host_from_hostname, resolve_private_host, resolve_identity,
}

hex-is_runner_id : (buf : List ℕ) → length buf ≡ 16 → is_runner_id (hex_encode buf) ≡ true
unfolding is_runner_id
hex-is_runner_id buf n = ground (arith, hex_encode_lower buf, length-hex_encode buf)

module _ (d : IdentityDeps) where
  open d use {World, getenv, hostname, exchange, decode, rand_read}

  -- The array that is read into has 16 bytes.
  pub record Sized : Type 0 where
    pub sized :
        (w w' : World) (n : ℕ) (buf : List ℕ) → rand_read w ≡ (some (n, buf), w') → length buf ≡ 16

  found_hex :
      (n : ℕ) (buf : List ℕ) (id : Text) (w w' : World)
      → length buf ≡ 16
      → of_read (some (n, buf), w) ≡ (found id, w')
      → is_runner_id id ≡ true
  found_hex n buf id w w' size h = elim (Bool-cases (n == 16)) [
    | inl whole ↦
        let same : hex_encode buf ≡ id = cc (rw whole at h) in
        rw (← same) (hex-is_runner_id buf size)
    | inr short ↦ absurd (cc (rw short at h))
  ]

  of_read-id :
      (w w' : World) (reply : Option (ℕ × List ℕ) × World) (id : Text)
      → ((n : ℕ) (buf : List ℕ) (w1 : World) → reply ≡ (some (n, buf), w1) → length buf ≡ 16)
      → of_read reply ≡ (found id, w')
      → is_runner_id id ≡ true
  of_read-id w w' (none, w1) id s h = cc
  of_read-id w w' (some (n, buf), w1) id s h = found_hex n buf id w1 w' (s n buf w1 refl) h

  -- A metadata document whose first network has the host as its first address.
  pub record FromEcs (w : World) (host : Text) : Type 0 where
    pub body : Text
    pub container : EcsContainerMeta
    pub network : EcsNetwork
    pub more_networks : List EcsNetwork
    pub more_addresses : List Text
    pub named : is_empty (getenv (codes "ECS_CONTAINER_METADATA_URI_V4")) ≡ false
    pub answered :
        (exchange (getenv (codes "ECS_CONTAINER_METADATA_URI_V4")) w).0 ≡ some (200, some body)
    pub decoded : decode body ≡ some container
    pub first_network : container.networks ≡ network ∷ more_networks
    pub first_host : network.ipv4_addresses ≡ host ∷ more_addresses

  read_all_answered :
      (reply : Option (ℕ × Option Text) × World) (body : Text)
      → (read_all reply).0 ≡ some body
      → reply.0 ≡ some (200, some body)
  read_all_answered (none, w) body h = cc
  read_all_answered (some (status, o), w) body h = elim (Bool-cases (status == 200)) [
    | inl fine ↦
        let same : status ≡ 200 = ground arith in
        let given : o ≡ some body = rw fine at h in rw (same, given) refl
    | inr bad ↦ absurd (cc (rw bad at h))
  ]

  first_address_found :
      (networks : List EcsNetwork) (host : Text)
      → first_address networks ≡ found host
      → (network : EcsNetwork) × (more_networks : List EcsNetwork) × (more : List Text) × (networks
          ≡ network ∷ more_networks)
        × (network.ipv4_addresses ≡ host ∷ more)
  first_address_found [] host h = cc
  first_address_found (network ∷ networks) host h = of_addresses network.ipv4_addresses refl
    where
      of_addresses :
          (l : List Text)
          → network.ipv4_addresses ≡ l
          → (n : EcsNetwork) × (more_networks : List EcsNetwork) × (more : List Text) × (network
                ∷ networks
              ≡ n ∷ more_networks)
            × (n.ipv4_addresses ≡ host ∷ more)
      of_addresses [] e = absurd (cc (rw e at h))
      of_addresses (address ∷ more) e =
          let same : address ≡ host = cc (rw e at h) in
          (network, networks, more, refl, rw (e, same) refl)

  of_meta_found :
      (w : World) (host body : Text) (o : Option EcsContainerMeta)
      → is_empty (getenv (codes "ECS_CONTAINER_METADATA_URI_V4")) ≡ false
      → (exchange (getenv (codes "ECS_CONTAINER_METADATA_URI_V4")) w).0 ≡ some (200, some body)
      → decode body ≡ o
      → of_meta o ≡ found host
      → FromEcs w host
  of_meta_found w host body none named a e h = cc
  of_meta_found w host body (some container) named a e h =
      let (network, networks, more, first, address) =
        first_address_found container.networks host h in
      record {
        body = body;
        container = container;
        network = network;
        more_networks = networks;
        more_addresses = more;
        named = named;
        answered = a;
        decoded = e;
        first_network = first;
        first_host = address;
      }

  of_body_found :
      (w w' : World) (host : Text) (reply : Option Text × World)
      → is_empty (getenv (codes "ECS_CONTAINER_METADATA_URI_V4")) ≡ false
      → (read_all (exchange (getenv (codes "ECS_CONTAINER_METADATA_URI_V4")) w)).0 ≡ reply.0
      → of_body d reply ≡ (found host, w')
      → FromEcs w host
  of_body_found w w' host (none, w1) named e h = cc
  of_body_found w w' host (some body, w1) named e h =
      of_meta_found w host body (decode body) named (read_all_answered _ body e) refl
        (ap (λ (x : Resolved Text × World). x.0) h)

  from_ecs :
      (w w' : World) (host : Text) → private_host_from_ecs d w ≡ (found host, w') → FromEcs w host
  unfolding private_host_from_ecs default_http_get
  from_ecs w w' host h =
      elim (Bool-cases (is_empty (getenv (codes "ECS_CONTAINER_METADATA_URI_V4")))) [
        | inl empty ↦ absurd (cc (rw empty at h))
        | inr named ↦ of_body_found w w' host _ named refl (rw named at h)
      ]

  from_hostname :
      (w w' : World) (host : Text)
      → private_host_from_hostname d w ≡ (found host, w')
      → (hostname w).0 ≡ some host
  unfolding private_host_from_hostname
  from_hostname w w' host h = of_name (hostname w) h
    where
      of_name :
          (reply : Option Text × World)
          → of_hostname d reply ≡ (found host, w')
          → reply.0 ≡ some host
      of_name (none, w1) h' = cc
      of_name (some name, w1) h' = cc

  -- Where a private host comes from.
  abbrev pub HostSource : World → Text → Type 0
  HostSource w host =
      (((getenv (codes "STACK_NAME") ≡ codes "ap-northeast-1")
          ⊎ (getenv (codes "STACK_NAME") ≡ codes "ap-northeast-3"))
        × FromEcs w host)
      ⊎ ((getenv (codes "STACK_NAME") ≡ codes "local") × ((hostname w).0 ≡ some host))

  host_source :
      (w w' : World) (host : Text) → resolve_private_host d w ≡ (found host, w') → HostSource w host
  unfolding resolve_private_host
  host_source w w' host h =
      elim (Bool-cases (text_eq (getenv (codes "STACK_NAME")) (codes "ap-northeast-1"))) [
        | inl one ↦ inl (inl (text_eq_sound _ _ one), from_ecs w w' host (rw one at h))
        | inr not_one ↦
            elim (Bool-cases (text_eq (getenv (codes "STACK_NAME")) (codes "ap-northeast-3"))) [
              | inl three ↦
                  inl (inr (text_eq_sound _ _ three), from_ecs w w' host (rw (not_one, three) at h))
              | inr not_three ↦
                  elim (Bool-cases (text_eq (getenv (codes "STACK_NAME")) (codes "local"))) [
                    | inl local ↦ inr (
                      text_eq_sound _ _ local,
                      from_hostname w w' host (rw (not_one, not_three, local) at h),
                    )
                    | inr other ↦ absurd (cc (rw (not_one, not_three, other) at h))
                  ]
            ]
      ]

  with_host :
      (w : World) (id : Text) (i : Identity) (w' : World) (reply : Resolved Text × World)
      → reply ≡ resolve_private_host d w
      → is_runner_id id ≡ true
      → after reply (λ host w2. (found (record { runner_id = id; private_host = host }), w2))
        ≡ (found i, w')
      → (is_runner_id i.runner_id ≡ true) × HostSource w i.private_host
  with_host w id i w' (lost e, w2) r v h = cc
  with_host w id i w' (found host, w2) r v h =
      let same : record { runner_id = id; private_host = host } ≡ i = cc h in
      subst (λ (x : Identity). (is_runner_id x.runner_id ≡ true) × HostSource w x.private_host) same
        (v, host_source w w2 host (sym r))

  -- An identity that is resolved has an id of 32 lowercase hex digits, as the broker wants it, also
  -- where the random source may read less than it is asked for. Its host is the first address of the
  -- first network in the metadata that the endpoint answered with 200, on the two AWS stacks, or the
  -- name of the host, on the local stack; no other stack name gives an identity.
  pub resolve_identity_lem :
      Sized
      → (w w' : World) (i : Identity) → resolve_identity d w ≡ (found i, w')
      → (is_runner_id i.runner_id ≡ true) × HostSource (generate_runner_id d w).1 i.private_host
  unfolding resolve_identity generate_runner_id
  resolve_identity_lem s w w' i h = with_id (of_read (rand_read w)) refl h
    where
      with_id :
          (reply : Resolved Text × World)
          → of_read (rand_read w) ≡ reply
          → after reply (λ id w1.
            after
              (resolve_private_host d w1)
              λ host w2. (found (record { runner_id = id; private_host = host }), w2))
            ≡ (found i, w')
          → (is_runner_id i.runner_id ≡ true) × HostSource reply.1 i.private_host
      with_id (lost e, w1) r h' = cc
      with_id (found id, w1) r h' =
          with_host w1 id i w' (resolve_private_host d w1) refl
            (of_read-id w w1 (rand_read w) id (λ n buf w2 e. s.sized w w2 n buf e) r) h'
