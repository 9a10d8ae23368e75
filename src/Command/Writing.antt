-- ===== src/Command/Writing.antt =====
-- `writeNodes` writes the text of a valid tree, through any lawful writer; so `plan.size` and
-- `plan.text` agree.
use gotmux.Prelude.{
  ℕ, ◌+◌, ◌≡◌, refl, sym, ap, ◌∙◌, Bool, true, false, [], ◌∷◌, ◌++◌, Bytes, codes, Error, none,
  err_input_limit, Result, ok, err, ◌>>=◌, length, length-append, ltb, leb, if◌then◌else◌, arith,
}
use gotmux.Wire.Writer.{Writer, put, NonZero, Lawful, builder_write, NonZero-append}
use gotmux.Wire.Quote.{escape, quoted, quote_write, write_quoted, escape-NonZero}
use gotmux.Wire.Quote.Laws.{quote_write-Lawful, write_quoted-put, builder-Lawful, put_cong}
use gotmux.Wire.Counter.{Counter, counter_writer, Counting, counter-Lawful, put-counter}
use gotmux.Command.{
  Arg, Args, Node, Nodes, Plan, write_arg, write_args, write_node, write_nodes, text, size, size_of,
}
use gotmux.Command.Text.{
  arg_word, args_text, node_text, nodes_text, ValidArg, valid_text, valid_nested, ValidArgs,
  valid_end, valid_more, ValidNode, valid_node, ValidNodes, valid_stop, valid_next,
}
use gotmux.Command.Plain.{
  IsText-NonZero, valid_command-IsText, arg_word-IsText, args_text-IsText, node_text-IsText,
  nodes_text-IsText,
}

quoted-NonZero : (p : Bytes) → NonZero p → NonZero (quoted p)
unfolding quoted
quoted-NonZero p h =
    (omega arith, NonZero-append (escape p) (b'"' ∷ []) (escape-NonZero p h) (omega arith))

module _ {S : Type 0} (w : Writer S) (Good : S → Type 0) (l : Lawful w Good) where
  -- Two texts, one after the other, by a step that writes the second.
  then_put :
      (p q : Bytes) (f : S → Result S) (s : S)
      → NonZero p
      → NonZero q
      → Good s
      → ((t : S) → Good t → f t ≡ put w q t)
      → (put w p s >>= f) ≡ put w (p ++ q) s
  then_put p q f s hp hq g same =
      put_cong w Good l p s f (put w q) hp g same ∙ sym (l.put_append p q s hp hq g)

  -- A nested list, between its quotation marks.
  nested_put :
      (q : Bytes) (f : S → Result S) (s : S)
      → NonZero q
      → Good s
      → ((t : S) → Good t → f t ≡ put (quote_write w) q t)
      → (put w (b'"' ∷ []) s >>= λ t. f t >>= λ u. put w (b'"' ∷ []) u) ≡ put w (quoted q) s
  nested_put q f s h g same =
      put_cong w Good l (b'"' ∷ []) s _ (λ t. put (quote_write w) q t >>= put w (b'"' ∷ []))
        (omega arith) g (λ t gt. ap (λ m. m >>= put w (b'"' ∷ [])) (same t gt))
      ∙ unfold write_quoted in write_quoted-put w Good l q s h g

  -- The separator before every node but the first.
  separated :
      (first : Bool) (q : Bytes) (f : S → Result S) (s : S)
      → NonZero q
      → Good s
      → ((t : S) → Good t → f t ≡ put w q t)
      → ((if first then ok s else put w (codes " ; ") s) >>= f)
        ≡ put w ((if first then [] else codes " ; ") ++ q) s
  separated true q f s h g same = same s g
  separated false q f s h g same = then_put (codes " ; ") q f s (omega arith) h g same

mutual
  unfolding write_arg write_args write_node write_nodes arg_word args_text node_text nodes_text

  write_arg-put :
      {S : Type 0} (w : Writer S) (Good : S → Type 0) (l : Lawful w Good) {a : Arg}
      → ValidArg a
      → (s : S) → Good s
      → write_arg w a s ≡ put w (quoted (arg_word a)) s
  write_arg-put w Good l (valid_text {t} h) s g =
      write_quoted-put w Good l t s (IsText-NonZero t h) g
  write_arg-put w Good l (valid_nested {ns} v) s g =
      nested_put w Good l (nodes_text true ns) (λ t. write_nodes (quote_write w) true ns t) s
        (IsText-NonZero _ (nodes_text-IsText true v)) g
        (λ t gt. write_nodes-put (quote_write w) Good (quote_write-Lawful w Good l) true v t gt)

  write_args-put :
      {S : Type 0} (w : Writer S) (Good : S → Type 0) (l : Lawful w Good) {args : Args}
      → ValidArgs args
      → (s : S) → Good s
      → write_args w args s ≡ put w (args_text args) s
  write_args-put w Good l valid_end s g = sym (l.put_nil s g)
  write_args-put w Good l (valid_more {a} {args} v vs) s g =
      let ha = quoted-NonZero (arg_word a) (IsText-NonZero _ (arg_word-IsText v)) in
      let hr = IsText-NonZero _ (args_text-IsText vs) in
      then_put w Good l (b' ' ∷ []) (quoted (arg_word a) ++ args_text args) _ s (omega arith)
        (NonZero-append (quoted (arg_word a)) (args_text args) ha hr) g
        (λ t gt.
          ap (λ m. m >>= λ u. write_args w args u) (write_arg-put w Good l v t gt)
          ∙ then_put w Good l (quoted (arg_word a)) (args_text args) _ t ha hr gt
              (λ u gu. write_args-put w Good l vs u gu))

  write_node-put :
      {S : Type 0} (w : Writer S) (Good : S → Type 0) (l : Lawful w Good) {n : Node}
      → ValidNode n
      → (s : S) → Good s
      → write_node w n s ≡ put w (node_text n) s
  write_node-put w Good l (valid_node {name} {args} h vs) s g = rw h (
      then_put w Good l name (args_text args) _ s
        (IsText-NonZero name (valid_command-IsText name h)) (IsText-NonZero _ (args_text-IsText vs))
        g (λ t gt. write_args-put w Good l vs t gt))

  write_nodes-put :
      {S : Type 0} (w : Writer S) (Good : S → Type 0) (l : Lawful w Good) (first : Bool)
      {ns : Nodes}
      → ValidNodes ns
      → (s : S) → Good s
      → write_nodes w first ns s ≡ put w (nodes_text first ns) s
  write_nodes-put w Good l first valid_stop s g = sym (l.put_nil s g)
  write_nodes-put w Good l first (valid_next {n} {ns} v vs) s g =
      separated w Good l first (node_text n ++ nodes_text false ns) _ s
        (NonZero-append (node_text n) (nodes_text false ns) (IsText-NonZero _ (node_text-IsText v))
          (IsText-NonZero _ (nodes_text-IsText false vs)))
        g
        (λ t gt.
          ap (λ m. m >>= λ u. write_nodes w false ns u) (write_node-put w Good l v t gt)
          ∙ then_put w Good l (node_text n) (nodes_text false ns) _ t
              (IsText-NonZero _ (node_text-IsText v))
              (IsText-NonZero _ (nodes_text-IsText false vs)) gt
              (λ u gu. write_nodes-put w Good l false vs u gu))

pub write_nodes-nodes_text :
    {ns : Nodes} → ValidNodes ns → write_nodes builder_write true ns [] ≡ ok (nodes_text true ns)
write_nodes-nodes_text v =
    write_nodes-put builder_write (λ _. Unit {0}) builder-Lawful true v [] tt
    ∙ unfold builder_write in refl

-- The text of a plan is the text of its tree and a line feed.
text-nodes_text :
    (p : Plan) → ValidNodes p.nodes → text p ≡ ok (nodes_text true p.nodes ++ b'\n' ∷ [])
unfolding text
text-nodes_text p v = ap (λ m. m >>= λ b. ok (b ++ b'\n' ∷ [])) (write_nodes-nodes_text v)

size_of-counted :
    (m n : ℕ) (c : Counter)
    → c.n ≡ 0
    → size_of m (
        if ltb m (c.n + n) then err Error.err_encoded_size_limit else ok (record c { n = c.n + n }))
      ≡ (if leb (n + 1) m then ok (n + 1) else err err_input_limit)
unfolding size_of
size_of-counted m n c h = ground arith

-- `plan.size` computes the length of the text that `plan.text` returns, without building it, and
-- refuses a text that is longer than its limit.
pub size-text :
    (p : Plan) (m : ℕ)
    → ValidNodes p.nodes
    → (t : Bytes) × (text p ≡ ok t)
      × (size p m ≡ (if leb (length t) m then ok (length t) else err err_input_limit))
unfolding size
size-text p m v =
    let t = nodes_text true p.nodes in
    let c : Counter = record { n = 0; limit = m; failure = none } in
    let fresh : Counting c = record { fresh = refl; within = omega arith } in
    (
      t ++ b'\n' ∷ [],
      text-nodes_text p v,
      ap (size_of m) (
            write_nodes-put counter_writer Counting counter-Lawful true v c fresh
            ∙ put-counter t c fresh)
          ∙ size_of-counted m (length t) c refl
          ∙ ap (λ n. if leb n m then ok n else err err_input_limit)
              (sym (length-append t (b'\n' ∷ []))),
    )
