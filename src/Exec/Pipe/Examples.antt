-- ===== src/Exec/Pipe/Examples.antt =====
-- Runs of the stream buffer of inengine-core/src/commands/exec/pipe.rs.
use in_engine_net.Prelude.{◌-◌, ◌≡◌, refl, List, [], ◌∷◌, Bytes, codes, arith, length, take, drop}
use in_engine_net.Std.Utf8.{is_utf8}
use in_engine_net.Exec.Pipe.{new, push, take_kept, push_all, into_text}
use in_engine_net.Exec.Pipe.Stream.{concat, take_kept-push_all}

abbrev chunks : List Bytes
chunks = codes "abcd" ∷ codes "efghijk" ∷ codes "l" ∷ []

take_kept-push_all_example :
    ((take_kept (push_all (new 3 2) chunks)).0 ≡ record {
      head = take 3 (concat chunks);
      dropped = length (drop 3 (concat chunks)) - 2;
      tail = drop (length (drop 3 (concat chunks)) - 2) (drop 3 (concat chunks));
    })
    × (push (take_kept (push_all (new 3 2) chunks)).1 (codes "late")
        ≡ (take_kept (push_all (new 3 2) chunks)).1)
take_kept-push_all_example = take_kept-push_all 3 2 chunks (codes "late") (omega arith)

chunks_text :
    into_text (take_kept (push_all (new 3 2) chunks)).0 ≡ codes "abc\n[7 bytes not kept]\nkl"
unfolding into_text take_kept push_all push new is_utf8
chunks_text = refl
