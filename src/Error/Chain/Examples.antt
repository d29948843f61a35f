-- ===== src/Error/Chain/Examples.antt =====
-- A Redis error that repeats its source, as inengine-core/src/error.rs shows it.
use in_engine_net.Prelude.{◌≡◌, refl, List, [], ◌∷◌, Bytes, codes, bytes_eq}
use in_engine_net.Error.Chain.{describe_error_chain, error_chain_text}

abbrev texts : List Bytes
texts = codes "could not read" ∷ codes "refused: reset" ∷ codes "reset" ∷ []

texts_described :
    describe_error_chain texts ≡ codes "Error: could not read\n  caused by: refused: reset\n"
unfolding describe_error_chain bytes_eq
texts_described = refl

texts_joined : error_chain_text texts ≡ codes "could not read: refused: reset"
unfolding error_chain_text bytes_eq
texts_joined = refl
