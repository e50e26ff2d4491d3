-- ===== src/Tests/Ops.antt =====
-- A domain and a name that are registered on a small ENS.
use universal_login_sdk.Prelude.{
  ◌≡◌, ◌≢◌, refl, false, some, [], ◌∷◌, ◌++◌, Text, codes, ◌==◌, ==_refl, ok, err, if◌then◌else◌,
  arith, to_lower_case,
}
use universal_login_sdk.Relayer.Errors.{ens_name_taken}
use universal_login_sdk.Relayer.Execution.{ether_address}
use universal_login_sdk.Relayer.Deployment.{Ens, deploy}
use universal_login_sdk.Relayer.Deployment
use universal_login_sdk.Ops.{
  Call, register, set_owner, set_resolver, set_addr, set_name, Network, OpsConfig, Registrar,
  start_domain, register_at, transact, register_in_registrar, set_as_resolver_public_resolver,
  deploy_new_registrar, set_registrar_as_owner,
}
use universal_login_sdk.Ops.Domains.{IsEns}
use universal_login_sdk.Ops.Serving.{start-start_domain}
use universal_login_sdk.Ops.Names.{
  prepare_name_registration, register_name, set_resolver_of, set_address, set_reverse_name,
  check_reverse_name, set_reverse, point_name, name_at, start_name, reverse_name_of,
}
use universal_login_sdk.Ops.Names.Steps.{IsResolving}
use universal_login_sdk.Ops.Names.Taken.{deploy-start_name}
use universal_login_sdk.Tests.Samples.{ethers, chain}
use universal_login_sdk.Tests.Deploying.{config, factory, infos}

-- The owner and the resolver of each node, and the address it has everywhere.
record Registry : Type 0 where
  owners : Text → Text
  resolvers : Text → Text
  addresses : Text → Text

-- A map with one value changed.
abbrev put : Text → Text → (Text → Text) → Text → Text
put k v f n = if n == k then v else f n

abbrev apply : Call → Registry → Registry
apply (register registrar label owner) s = s
apply (set_owner node a) s = record s { owners = put node a s.owners }
apply (set_resolver node a) s = record s { resolvers = put node a s.resolvers }
apply (set_addr at node a) s = record s { addresses = put node a s.addresses }
apply (set_name registrar name) s = s

-- The hash is always the same, and a transaction is mined at once.
abbrev net : Network Registry
net = record {
  namehash = λ name. some name;
  owner = λ s node. ok (s.owners node);
  resolver = λ s node. ok (s.resolvers node);
  addr = λ s at node. ok (s.addresses node);
  name = λ s at node. ok (codes "name");
  send = λ call s. ok (codes "0xh", apply call s);
  wait_to_be_mined = λ hash s. ok s;
  deploy_registrar = λ ens node s. ok (codes "0xr", s);
}

put_same : (k v : Text) (f : Text → Text) → put k v f k ≡ v
put_same k v f = rw (==_refl k) refl

-- What a call that is mined leaves.
mined_of :
    (call : Call) (hash : Text) (s sent mined : Registry)
    → net.send call s ≡ ok (hash, sent)
    → net.wait_to_be_mined hash sent ≡ ok mined
    → mined ≡ apply call s
mined_of call hash s sent mined p q = ground arith

net-IsEns : IsEns net
net-IsEns = record {
  owner-set_owner = λ node a hash s sent mined p q.
      rw (mined_of (set_owner node a) hash s sent mined p q, put_same node a s.owners) refl;
  resolver-set_owner =
      λ node a hash s sent mined p q. rw (mined_of (set_owner node a) hash s sent mined p q) refl;
  resolver-set_resolver = λ node a hash s sent mined p q.
      rw (mined_of (set_resolver node a) hash s sent mined p q, put_same node a s.resolvers) refl;
  resolver-deploy_registrar = λ ens node other address s deployed p. ground arith;
}

abbrev ops : OpsConfig
ops = record {
  ens_address = codes "0x5";
  public_resolver_address = codes "0x3";
  deployer = codes "0xd";
}

net-IsResolving : IsResolving net ops
net-IsResolving = record {
  addr-set_addr = λ at node a hash s sent mined p q.
      rw (mined_of (set_addr at node a) hash s sent mined p q, put_same node a s.addresses) refl;
  resolver-set_addr = λ at node a hash other s sent mined p q.
      rw (mined_of (set_addr at node a) hash s sent mined p q) refl;
  addr-set_name = λ registrar name hash at node s sent mined p q.
      rw (mined_of (set_name registrar name) hash s sent mined p q) refl;
  resolver-set_name = λ registrar name hash node s sent mined d p q.
      rw (mined_of (set_name registrar name) hash s sent mined p q) refl;
}

abbrev fresh : Registrar Registry
fresh = record {
  registrar_address = [];
  resolver_address = [];
  variables = [];
  log = [];
  files = [];
  world = record {
    owners = λ node. codes "0xt";
    resolvers = λ node. codes "0x4";
    addresses = λ node. codes "0x0";
  };
}

-- What the relayer is answered from a registry.
abbrev ens_of : Registry → Ens
ens_of s = record {
  namehash = λ name. some name;
  resolver = λ node. ok (s.resolvers node);
  owner = λ node. ok (s.owners node);
  addr = λ at node. ok (s.addresses node);
}

abbrev registered : Registrar Registry
registered = (start_domain ethers net ops (codes "mylogin") (codes "eth") fresh).1

registers : start_domain ethers net ops (codes "mylogin") (codes "eth") fresh ≡ (ok tt, registered)
unfolding start_domain register_at transact register_in_registrar set_as_resolver_public_resolver
    deploy_new_registrar set_registrar_as_owner
registers = refl

start-start_domain_example :
    Deployment.start ethers
      (ens_of registered.world)
      chain
      config
      factory
      ((codes "mylogin" ++ b'.' ∷ codes "eth") ∷ [])
    ≡ ok (
        (
          codes "mylogin" ++ b'.' ∷ codes "eth",
          record {
            resolver_address = codes "0x3";
            registrar_address = registered.registrar_address;
          },
        )
        ∷ [])
start-start_domain_example =
    start-start_domain ethers net ops net-IsEns (codes "mylogin") (codes "eth") fresh registered
      refl registers (ens_of registered.world) chain config factory (λ t. refl)
      (λ node a p. ground arith) (λ node a p. ground arith)

abbrev named : Registrar Registry
named = (start_name ethers net ops (codes "alice") (codes "mylogin.eth") fresh).1

names : start_name ethers net ops (codes "alice") (codes "mylogin.eth") fresh ≡ (ok tt, named)
unfolding start_name prepare_name_registration transact register_name set_resolver_of set_address
    set_reverse_name check_reverse_name set_reverse point_name name_at
names = refl

apart :
    net.namehash (reverse_name_of ops) ≢ net.namehash (codes "alice" ++ b'.' ∷ codes "mylogin.eth")
unfolding to_lower_case
apart = λ p. ground arith

elsewhere : (named.resolver_address == ether_address) ≡ false
unfolding start_name prepare_name_registration transact register_name set_resolver_of set_address
    set_reverse_name check_reverse_name set_reverse point_name name_at ◌==◌ ether_address
elsewhere = refl

deploy-start_name_example :
    deploy ethers
      (ens_of named.world)
      chain
      config
      factory
      infos
      (codes "0xk")
      (codes "alice" ++ b'.' ∷ codes "mylogin.eth")
      (codes "1")
      (codes "0xs")
      []
    ≡ (err (ens_name_taken (codes "alice" ++ b'.' ∷ codes "mylogin.eth")), [])
deploy-start_name_example =
    deploy-start_name ethers net ops net-IsEns net-IsResolving (codes "alice") (codes "mylogin.eth")
      fresh named apart names elsewhere refl (ens_of named.world) chain config factory (λ t. refl)
      (λ node a p. ground arith) (λ at node a p. ground arith) infos (codes "0xk") (codes "1")
      (codes "0xs") []
