-- ===== src/Output/Plain.antt =====
-- What a command's output is when color is off, as the server and the queue run it.
use mathlib.Core.List.{append_assoc, append-nil}
use in_engine_net.Prelude.{
  ℕ, ◌≡◌, refl, sym, ap, ◌∙◌, true, false, Option, some, none, List, [], ◌∷◌, ◌++◌, Bytes,
  if◌then◌else◌,
}
use in_engine_net.Std.Utf8.{is_utf8}
use in_engine_net.Std.Lossy.{from_utf8_lossy_valid}
use in_engine_net.Output
use in_engine_net.Output.{Terminal, newline_bytes}

module _ (t : Terminal) where
  -- The writes that a command can make.
  pub data Write : Type 0 where
    line info_line warning_line error_line text info warning error : Bytes → Write
    newlines : ℕ → Write
    colored_line colored_text : Bytes → t.Color → Write

  unfoldable pub perform : Output.Output t → Write → Output.Output t
  perform o (line s) = Output.line t o s
  perform o (info_line s) = Output.info_line t o s
  perform o (warning_line s) = Output.warning_line t o s
  perform o (error_line s) = Output.error_line t o s
  perform o (text s) = Output.text t o s
  perform o (info s) = Output.info t o s
  perform o (warning s) = Output.warning t o s
  perform o (error s) = Output.error t o s
  perform o (newlines n) = Output.newlines t o n
  perform o (colored_line s c) = Output.colored_line t o s c
  perform o (colored_text s c) = Output.colored_text t o s c

  unfoldable pub perform_all : Output.Output t → List Write → Output.Output t
  perform_all o [] = o
  perform_all o (w ∷ ws) = perform_all (perform o w) ws

  -- The text of a write, without color.
  abbrev pub plain : Write → Bytes
  plain (line s) = s ++ b'\n' ∷ []
  plain (info_line s) = s ++ b'\n' ∷ []
  plain (warning_line s) = s ++ b'\n' ∷ []
  plain (error_line s) = s ++ b'\n' ∷ []
  plain (text s) = s
  plain (info s) = s
  plain (warning s) = s
  plain (error s) = s
  plain (newlines n) = newline_bytes n
  plain (colored_line s c) = s ++ b'\n' ∷ []
  plain (colored_text s c) = s

  abbrev pub plain_all : List Write → Bytes
  plain_all [] = []
  plain_all (w ∷ ws) = plain w ++ plain_all ws

  abbrev after : Output.Output t → Bytes → Output.Output t
  after o s = record o { buffer = o.buffer ++ s }

  colorless :
      (o : Output.Output t) (s : Bytes) (c : Option t.Color)
      → o.use_color ≡ false
      → (if o.use_color then Output.in_color t c s else s) ≡ s
  colorless o s c h = rw h refl

  with_line :
      (o : Output.Output t) (s : Bytes) (c : Option t.Color)
      → o.use_color ≡ false
      → Output.write_colored t o s c true ≡ after o (s ++ b'\n' ∷ [])
  unfolding Output.write_colored
  with_line o s c h =
      ap (λ b. record o { buffer = b })
        (ap (λ x. (o.buffer ++ x) ++ b'\n' ∷ []) (colorless o s c h)
          ∙ append_assoc o.buffer s (b'\n' ∷ []))

  with_text :
      (o : Output.Output t) (s : Bytes) (c : Option t.Color)
      → o.use_color ≡ false
      → Output.write_colored t o s c false ≡ after o s
  unfolding Output.write_colored
  with_text o s c h =
      ap (λ b. record o { buffer = b })
        (ap (λ x. (o.buffer ++ x) ++ []) (colorless o s c h) ∙ append-nil (o.buffer ++ s))

  perform-plain :
      (o : Output.Output t) (w : Write) → o.use_color ≡ false → perform o w ≡ after o (plain w)
  unfolding perform Output.line Output.info_line Output.warning_line Output.error_line Output.text
      Output.info Output.warning Output.error Output.newlines Output.colored_line
      Output.colored_text
  perform-plain o (line s) h = with_line o s none h
  perform-plain o (info_line s) h = with_line o s (some t.green) h
  perform-plain o (warning_line s) h = with_line o s (some t.yellow) h
  perform-plain o (error_line s) h = with_line o s (some t.red) h
  perform-plain o (text s) h = with_text o s none h
  perform-plain o (info s) h = with_text o s (some t.green) h
  perform-plain o (warning s) h = with_text o s (some t.yellow) h
  perform-plain o (error s) h = with_text o s (some t.red) h
  perform-plain o (newlines n) h = refl
  perform-plain o (colored_line s c) h = with_line o s (some c) h
  perform-plain o (colored_text s c) h = with_text o s (some c) h

  perform_all-plain_all :
      (o : Output.Output t) (ws : List Write)
      → o.use_color ≡ false
      → perform_all o ws ≡ after o (plain_all ws)
  unfolding perform_all
  perform_all-plain_all o [] h = ap (λ b. record o { buffer = b }) (sym (append-nil o.buffer))
  perform_all-plain_all o (w ∷ ws) h =
      ap (λ p. perform_all p ws) (perform-plain o w h)
      ∙ perform_all-plain_all (after o (plain w)) ws h
      ∙ ap (λ b. record o { buffer = b }) (append_assoc o.buffer (plain w) (plain_all ws))

  -- With color off, whatever a command writes, the buffer taken is the text of its writes in order
  -- when that is UTF-8, with no color codes, and it is left empty; what is printed instead is the
  -- same text.
  pub take_buffer-perform_all :
      (ws : List Write)
      → is_utf8 (plain_all ws) ≡ true
      → ((Output.take_buffer t (perform_all (Output.new t false) ws)).0 ≡ plain_all ws)
        × ((Output.take_buffer t (perform_all (Output.new t false) ws)).1 ≡ Output.new t false)
        × ((Output.print t (perform_all (Output.new t false) ws)).0 ≡ plain_all ws)
  unfolding Output.take_buffer Output.print Output.new
  take_buffer-perform_all ws u = (
    ap (λ o. (Output.take_buffer t o).0) done ∙ from_utf8_lossy_valid (plain_all ws) u,
    ap (λ o. (Output.take_buffer t o).1) done,
    ap (λ o. (Output.print t o).0) done,
  )
    where
      done : perform_all (Output.new t false) ws ≡ after (Output.new t false) (plain_all ws)
      done = perform_all-plain_all (Output.new t false) ws refl
