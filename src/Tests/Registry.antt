-- ===== src/Tests/Registry.antt =====
-- The invariants of the registry and the allocator on the sample installation.
use overworld_ops.Base.{
  [], ◌∷◌, arith, true, refl, Text, Bool, count_where, text_eq, one_if, ◌≡◌, ◌+◌, codes, ◌≤◌, ◌==◌,
  false, Bool-cases, inl, eq_of_text_eq, text_eq_refl, inr, select_where, is_empty, ◌&&◌, ◌||◌,
}
use overworld_ops.Store.Valid.{IsValid}
use overworld_ops.Api.Registry.WellFormed.{serve_all-IsValid}
use overworld_ops.Api.Registry.PortRange.{PortsInRange, serve_all-PortsInRange}
use overworld_ops.Api.Routes.{serve_all}
use overworld_ops.Ports.{allocate}
use overworld_ops.Ports.Allocate.{Allocates, allocate-Allocates}
use overworld_ops.Tests.Samples.{root, friend, smp, world, calm, config, register_request}
use overworld_ops.Store.Sql.{exec, query, has_port, has_owner}
use overworld_ops.System.{map_err}
use overworld_ops.Store.Servers.{list_servers, newest_first, insert_by_date, scoped}
use overworld_ops.Store.Listing.{IsNewestFirst, list_servers-IsNewestFirst}

other_way : (a b : Text) → text_eq a b ≡ false → text_eq b a ≡ false
other_way a b differ = elim (Bool-cases (text_eq b a)) [
  | inl same ↦
      let q : text_eq a a ≡ false = rw (eq_of_text_eq b a same) at differ in cc (text_eq_refl a)
  | inr other ↦ other
]

not_both :
    (a b k : Text) → text_eq a b ≡ false → one_if (text_eq a k) + (one_if (text_eq b k) + 0) ≤ 1
not_both a b k differ = elim (Bool-cases (text_eq a k)) [
  | inl same ↦ rw same (rw (← eq_of_text_eq a k same) (rw (other_way a b differ) (omega arith)))
  | inr other ↦ rw other (ground arith)
]

one_at_most : (b : Bool) → one_if b + 0 ≤ 1
one_at_most b = ground arith

pub world-IsValid : IsValid world
unfolding count_where
world-IsValid = record {
  user_ids = λ k. not_both (1 ∷ []) (2 ∷ []) k (unfold text_eq in refl);
  usernames = λ k. not_both root.username friend.username k (unfold text_eq codes in refl);
  server_ids = λ k. one_at_most (text_eq smp.id k);
  ports = λ p. one_at_most (smp.port == p);
  owners = λ k owned. ground arith;
}

serve_all-IsValid_example : IsValid (serve_all config calm (register_request ∷ []) world)
serve_all-IsValid_example =
    serve_all-IsValid config calm (register_request ∷ []) world world-IsValid

serve_all-PortsInRange_example :
    PortsInRange 25565 25570 (serve_all config calm (register_request ∷ []) world)
unfolding count_where
serve_all-PortsInRange_example =
    serve_all-PortsInRange config calm (register_request ∷ []) world refl

allocate-Allocates_example :
    Allocates calm world true 25565 25570 (allocate 25565 25570 true calm world).0
allocate-Allocates_example = allocate-Allocates 25565 25570 true calm world

list_servers-IsNewestFirst_example :
    IsNewestFirst (smp ∷ [])
    × (count_where (has_port 25565) (smp ∷ [])
        ≡ count_where
            (λ v. has_port 25565 v && (is_empty friend.id || has_owner friend.id v))
            world.servers)
unfolding list_servers map_err exec query newest_first insert_by_date scoped select_where is_empty
    text_eq
list_servers-IsNewestFirst_example =
    list_servers-IsNewestFirst friend.id calm world (smp ∷ []) (has_port 25565) refl
