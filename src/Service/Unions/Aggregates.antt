-- ===== src/Service/Unions/Aggregates.antt =====
-- What ZUNIONSTORE makes of AGGREGATE behind WEIGHTS.
use pedis.Base.{ℕ, ◌≡◌, refl, false, List, [], ◌∷◌}
use pedis.Base.Int.{ℤ, pos}
use pedis.Base.Bytes.{Bytes, bytes_eq}
use pedis.Double.{Double}
use pedis.Reply.Wire.{codes}
use pedis.Service.{Host, Number, Shards}
use pedis.Service.Unions
use pedis.Service.Unions.{ZsetArgs, Read, zaggregate_sum, zunionstore, store_union, parse_zset_args}

-- The arguments of two keys with weights, and what may follow them.
abbrev pub weights_args : Bytes → Bytes → Bytes → Bytes → Bytes → Bytes → List Bytes → List Bytes
weights_args dest count a b u v more = dest ∷ count ∷ a ∷ b ∷ codes "WEIGHTS" ∷ u ∷ v ∷ more

-- The same arguments read, with the sum as their aggregate.
abbrev pub summed : {F : Type 0} → Bytes → Bytes → Bytes → F → F → ZsetArgs F
summed dest a b x y = record {
  dest = dest;
  numkeys = 2;
  keys = a ∷ b ∷ [];
  weights = x ∷ y ∷ [];
  aggregate_flag = zaggregate_sum;
}

module _ {F : Type 0} (stol : Bytes → Number ℤ) (stod : Bytes → Number F) (one : F)
    (garbage : ℕ) where
  parse-weights :
      (dest count a b u v : Bytes) (x y : F)
      → stol count ≡ Number.value (pos 2)
      → stod u ≡ Number.value x
      → stod v ≡ Number.value y
      → parse_zset_args stol stod one garbage (weights_args dest count a b u v [])
        ≡ Read.value (summed dest a b x y)
  unfolding parse_zset_args Unions.options_loop Unions.weights_option Unions.aggregate_option
      Unions.taken_weights Unions.read_weights Unions.defaults bytes_eq
  parse-weights dest count a b u v x y c h k = rw (c, h, k) refl

  parse-aggregate :
      (dest count a b u v : Bytes) (x y : F) (aggre : Bytes)
      → stol count ≡ Number.value (pos 2)
      → stod u ≡ Number.value x
      → stod v ≡ Number.value y
      → bytes_eq aggre (codes "WEIGHTS") ≡ false
      → bytes_eq aggre (codes "AGGREGATE") ≡ false
      → parse_zset_args stol stod one garbage
          (weights_args dest count a b u v (codes "AGGREGATE" ∷ aggre ∷ []))
        ≡ Read.value (summed dest a b x y)
  unfolding parse_zset_args Unions.options_loop Unions.weights_option Unions.aggregate_option
      Unions.taken_weights Unions.read_weights Unions.defaults bytes_eq
  parse-aggregate dest count a b u v x y aggre c h k p q = rw (c, h, k, p, q) refl

module _ {F S : Type 0} ⦃D : Double F⦄ (H : Host) (mul : F → F → F) (stol : Bytes → Number ℤ)
    (stod : Bytes → Number F) (one : F) (garbage : ℕ)
    (order : List (Bytes × F) → List (Bytes × F)) where
  -- For two keys and two weights that read as numbers: ZUNIONSTORE with WEIGHTS and then AGGREGATE,
  -- with any word behind it that is neither WEIGHTS nor AGGREGATE, replies and stores exactly what
  -- it does without the aggregate, the union with the sum of scores.
  pub zunionstore-aggregate :
      (dest count a b u v aggre : Bytes) (x y : F) (m : Shards F S)
      → stol count ≡ Number.value (pos 2)
      → stod u ≡ Number.value x
      → stod v ≡ Number.value y
      → bytes_eq aggre (codes "WEIGHTS") ≡ false
      → bytes_eq aggre (codes "AGGREGATE") ≡ false
      → let summed_up = store_union H mul order (summed dest a b x y) m in
        (zunionstore H mul stol stod one garbage order
            (weights_args dest count a b u v (codes "AGGREGATE" ∷ aggre ∷ []))
            m
          ≡ summed_up)
        × (zunionstore H mul stol stod one garbage order (weights_args dest count a b u v []) m
            ≡ summed_up)
  unfolding zunionstore
  zunionstore-aggregate dest count a b u v aggre x y m c h k p q = (
    rw (parse-aggregate stol stod one garbage dest count a b u v x y aggre c h k p q) refl,
    rw (parse-weights stol stod one garbage dest count a b u v x y c h k) refl,
  )
