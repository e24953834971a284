-- ===== src/Fake/Tests.antt =====
-- crates/proef-core/src/fake.rs: the tests of the program, and an instance.
use proef.Base.{◌≡◌, refl, none, true, all, is_some}
use proef.Base.Maps.{lookup}
use proef.Base.Texts.{codes}
use proef.Fake.{generate, generators, is_known_generator}
use proef.Fake.Shapes.{shapes}
use proef.Fake.Generated.{Agrees, generate-Agrees}

every_listed_generator_generates :
    all (λ g. is_some (generate (codes "run-1") 0 g)) generators ≡ true
unfolding generate
every_listed_generator_generates = refl

unlisted : generate (codes "run-1") 0 (codes "nope") ≡ none
unfolding generate
unlisted = refl

generate-Agrees_example :
    Agrees (generate (codes "run-1") 0 (codes "uuid")) (lookup (codes "uuid") shapes)
    × (is_known_generator (codes "uuid") ≡ is_some (generate (codes "run-1") 0 (codes "uuid")))
generate-Agrees_example = generate-Agrees (codes "run-1") 0 (codes "uuid")
