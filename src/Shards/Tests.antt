-- ===== src/Shards/Tests.antt =====
-- crates/proef-cli/src/timings.rs and exec.rs: the tests of the program, and instances.
use proef.Base.{◌++◌, ◌≡◌, refl, ◌≤◌, some, [], ◌∷◌, map, arith, count_p, ◌+◌}
use proef.Base.Texts.{codes, text_eq, text_eq_iff}
use proef.Shards.{Identity, identity_eq, Weights, assign, place_of, shard_bucket}
use proef.Base.Printing.{decimal}
use proef.Shards.Argument.{parse_shard, documented, parse_shard-written, ok, err, bad_count}
use proef.Shards.Partition.{matrix, count_p-matrix}
use proef.Shards.Balance.{share, Distinct, assign_balanced}

-- The frozen values of the program's own test.
frozen :
    map
      (λ n. shard_bucket (codes "suite/case.feature") (codes n) 3)
      ("s1" ∷ "s2" ∷ "s3" ∷ "s4" ∷ "s5" ∷ "s6" ∷ [])
    ≡ 1 ∷ 0 ∷ 2 ∷ 0 ∷ 0 ∷ 0 ∷ []
unfolding shard_bucket
frozen = refl

abbrev slow : Identity
slow = (codes "f.feature", codes "slow")

abbrev fast : Identity
fast = (codes "f.feature", codes "a")

abbrev weights : Weights
weights = (fast, 100) ∷ (slow, 900) ∷ []

slow_alone : map (λ i. place_of i (assign weights 2)) (slow ∷ fast ∷ []) ≡ some 0 ∷ some 1 ∷ []
unfolding assign place_of
slow_alone = refl

weights-Distinct : Distinct weights
unfolding identity_eq text_eq
weights-Distinct (file, name) = ground (arith, text_eq_iff name fast.1, text_eq_iff name slow.1)

assign_balanced_example :
    share weights (assign weights 2) 0 ≤ share weights (assign weights 2) 1 + 900
assign_balanced_example =
    assign_balanced weights 2 900 0 1 weights-Distinct (omega arith) (omega arith)
      (omega arith, (omega arith, tt)) (omega arith)

count_p-matrix_example :
    count_p (λ i. identity_eq i fast) (matrix (λ i. i) (some weights) 2 2 (slow ∷ fast ∷ fast ∷ []))
    ≡ count_p (λ i. identity_eq i fast) (slow ∷ fast ∷ fast ∷ [])
count_p-matrix_example =
    count_p-matrix (λ i. i) (some weights) 2 (λ i. identity_eq i fast) (slow ∷ fast ∷ fast ∷ [])
      (omega arith)

parse_shard-written_example : parse_shard (decimal 4 ++ (47 ∷ decimal 3)) ≡ documented 4 3
parse_shard-written_example = parse_shard-written 4 3 (omega arith) (omega arith)

accepted : parse_shard (codes "1/3") ≡ ok 1 3
unfolding parse_shard
accepted = refl

refused : parse_shard (codes "1/x") ≡ err (bad_count (codes "x"))
unfolding parse_shard
refused = refl
