-- ===== src/Parser/Execute/Shrinks.antt =====
-- src/http_server.c: a request that `http_parser_execute` completes takes bytes from the buffer.
use modern_c_web_library.Base.{
  ℕ, zero, suc, ◌≡◌, ◌≤◌, ◌<◌, inl, inr, refl, ap, subst, sym, Bool, Option, none, some, [], arith,
  length, take, length-drop, Bool-cases, ◌==◌,
}
use modern_c_web_library.Parser
use modern_c_web_library.Parser.{
  failed, waiting, advanced, HttpParser, ParseState, request_line, headers, body, chunk_size,
  chunk_data, chunk_crlf, chunk_trailers, complete, error, ParserResult, parser_complete,
  parser_error, parser_incomplete, parser_consume,
}
use modern_c_web_library.Parser.Buffer.{parser_consume_lem}
use modern_c_web_library.Parser.RequestLine.{parse_request_line}
use modern_c_web_library.Parser.Headers.{parse_headers}
use modern_c_web_library.Parser.Body.{
  parse_chunk_size, parse_chunk_data, parse_chunk_crlf, parse_chunk_trailers,
}
use modern_c_web_library.Parser.Execute.{
  Round, again, done, of_progress, of_line, state_result, body_copied, body_round, execute_round,
  execute_loop, rounds, execute_received, http_parser_execute,
}
use modern_c_web_library.Parser.Execute.Progress.{weight, append_body_data-keeps}
use modern_c_web_library.Parser.Execute.Outcome.{
  execute_round-Ok, RoundOk, to_copy, copy, body_round-starved, body_round-refused,
  body_round-copied,
}

-- A round that completes the request leaves no more to do than there was.
abbrev Completes : HttpParser → Round → Type 0
Completes p (done p' parser_complete) = weight p' ≤ weight p
Completes p _ = Unit

of_progress-Completes :
    (p : HttpParser) (out : HttpParser × Parser.Progress) → Completes p (of_progress out)
of_progress-Completes p (p', failed) = tt
of_progress-Completes p (p', waiting) = tt
of_progress-Completes p (p', advanced) = tt

-- A round that does not complete the request.
abbrev Unfinished : Round → Type 0
Unfinished (done p' parser_complete) = ⊥
Unfinished _ = Unit

done-Unfinished : (p' : HttpParser) (st : ParseState) → Unfinished (done p' (state_result st))
done-Unfinished p' error = tt
done-Unfinished p' _ = tt

of_line-Unfinished : (out : HttpParser × Parser.Progress) → Unfinished (of_line out)
of_line-Unfinished (p', advanced) = tt
of_line-Unfinished (p', failed) = done-Unfinished p' p'.state
of_line-Unfinished (p', waiting) = done-Unfinished p' p'.state

Unfinished-Completes : (p : HttpParser) (r : Round) → Unfinished r → Completes p r
Unfinished-Completes p (again q) h = tt
Unfinished-Completes p (done q parser_complete) h = absurd h
Unfinished-Completes p (done q parser_error) h = tt
Unfinished-Completes p (done q parser_incomplete) h = tt

module _ (alloc : ℕ → Bool) where
  body_copied-Completes :
      (p p' : HttpParser) (n : ℕ)
      → p.state ≡ body
      → p'.buffer ≡ p.buffer
      → Completes p (body_copied alloc p' n)
  unfolding body_copied
  body_copied-Completes p p' n s same = elim (Bool-cases (p'.body_received == p'.content_length)) [
    | inl e ↦ rw e (ground (arith, s, same, parser_consume_lem p' n, length-drop n p.buffer))
    | inr e ↦ rw e tt
  ]

  body_round-Completes : (p : HttpParser) → p.state ≡ body → Completes p (body_round alloc p)
  body_round-Completes p s =
      let (same, _, _) = append_body_data-keeps alloc p (take (to_copy alloc p) p.buffer) in
      elim (Bool-cases (to_copy alloc p == 0)) [
        | inl e ↦ rw (body_round-starved alloc p e) tt
        | inr e ↦ elim (Bool-cases (copy alloc p).1) [
          | inl f ↦
              rw (body_round-copied alloc p e f)
                (body_copied-Completes p (copy alloc p).0 (to_copy alloc p) s same)
          | inr f ↦ rw (body_round-refused alloc p e f) tt
        ]
      ]

  CompletesRun : HttpParser → Option Round → Type 0
  CompletesRun p none = Unit
  CompletesRun p (some r) = Completes p r

  execute_round-Completes :
      (st : ParseState) (p : HttpParser) → p.state ≡ st → CompletesRun p (execute_round alloc st p)
  unfolding execute_round CompletesRun
  execute_round-Completes request_line p s =
      Unfinished-Completes p (of_line (parse_request_line alloc p))
        (of_line-Unfinished (parse_request_line alloc p))
  execute_round-Completes headers p s = go (parse_headers alloc (suc (length p.buffer)) p)
    where
      go :
          (o : Option (HttpParser × Parser.Progress))
          → let r : Option Round = elim o [ none ↦ none | some out ↦ some (of_progress out) ] in
            CompletesRun p r
      go none = tt
      go (some out) = of_progress-Completes p out
  execute_round-Completes body p s = body_round-Completes p s
  execute_round-Completes chunk_size p s = of_progress-Completes p (parse_chunk_size alloc p)
  execute_round-Completes chunk_data p s = of_progress-Completes p (parse_chunk_data alloc p)
  execute_round-Completes chunk_crlf p s = of_progress-Completes p (parse_chunk_crlf p)
  execute_round-Completes chunk_trailers p s = of_progress-Completes p (parse_chunk_trailers p)
  execute_round-Completes complete p s = omega arith
  execute_round-Completes error p s = tt

  -- What is left to do when a run completes the request: no more than before.
  CompletesAll : HttpParser → Option (HttpParser × ParserResult) → Type 0
  CompletesAll p (some (p', parser_complete)) = weight p' ≤ weight p
  CompletesAll p _ = Unit

  CompletesAll-from :
      (p q : HttpParser) (o : Option (HttpParser × ParserResult))
      → weight q ≤ weight p
      → CompletesAll q o
      → CompletesAll p o
  unfolding CompletesAll
  CompletesAll-from p q none le h = tt
  CompletesAll-from p q (some (p', parser_complete)) le h = omega arith
  CompletesAll-from p q (some (p', parser_error)) le h = tt
  CompletesAll-from p q (some (p', parser_incomplete)) le h = tt

  RunOk : HttpParser → Option Round → Type 0
  RunOk p none = Unit
  RunOk p (some r) = RoundOk p r

  execute_round-RunOk : (p : HttpParser) → RunOk p (execute_round alloc p.state p)
  unfolding RunOk
  execute_round-RunOk p =
      let (r, runs, good) = execute_round-Ok alloc p.state p refl in subst (RunOk p) (sym runs) good

  execute_loop-CompletesAll :
      (fuel : ℕ) (p : HttpParser) → CompletesAll p (execute_loop alloc fuel p)
  unfolding execute_loop CompletesAll CompletesRun RunOk
  execute_loop-CompletesAll zero p = tt
  execute_loop-CompletesAll (suc fuel) p =
      go (execute_round alloc p.state p) (execute_round-RunOk p)
        (execute_round-Completes p.state p refl) (execute_loop-CompletesAll fuel)
    where
      go :
          (o : Option Round)
          → RunOk p o
          → CompletesRun p o
          → ((q : HttpParser) → CompletesAll q (execute_loop alloc fuel q))
          → let run : Option (HttpParser × ParserResult) = elim o [
            | none ↦ none
            | some (again p') ↦ execute_loop alloc fuel p'
            | some (done p' result) ↦ some (p', result)
          ] in
            CompletesAll p run
      go none good h ih = tt
      go (some (again p')) less h ih =
          CompletesAll-from p p' (execute_loop alloc fuel p') (omega (arith, less)) (ih p')
      go (some (done p' parser_complete)) good h ih = h
      go (some (done p' parser_error)) good h ih = tt
      go (some (done p' parser_incomplete)) good h ih = tt

  -- The first round is that of the request line: it does not complete the request, so another follows
  -- with less to do.
  execute_loop-shorter :
      (fuel : ℕ) (p p' : HttpParser)
      → p.state ≡ request_line
      → execute_loop alloc fuel p ≡ some (p', parser_complete)
      → length p'.buffer < length p.buffer
  unfolding execute_loop execute_round RunOk CompletesAll
  execute_loop-shorter zero p p' s e = absurd (ground arith)
  execute_loop-shorter (suc fuel) p p' s e =
      let at_line : execute_round alloc p.state p ≡ execute_round alloc request_line p =
        ap (λ st. execute_round alloc st p) s in
      let ok : RoundOk p (of_line (parse_request_line alloc p)) =
        subst (RunOk p) at_line (execute_round-RunOk p) in
      go (of_line (parse_request_line alloc p)) at_line ok
        (of_line-Unfinished (parse_request_line alloc p)) (execute_loop-CompletesAll fuel)
    where
      go :
          (r : Round)
          → execute_round alloc p.state p ≡ some r
          → RoundOk p r
          → Unfinished r
          → ((q : HttpParser) → CompletesAll q (execute_loop alloc fuel q))
          → length p'.buffer < length p.buffer
      go (again q) e' less h ih =
          let on : execute_loop alloc fuel q ≡ some (p', parser_complete) = ground (arith, e, e') in
          let le : weight p' ≤ weight q = subst (CompletesAll q) on (ih q) in
          ground (arith, le, less, s)
      go (done q parser_complete) e' agrees h ih = absurd h
      go (done q parser_error) e' agrees h ih = absurd (ground (arith, e, e'))
      go (done q parser_incomplete) e' agrees h ih = absurd (ground (arith, e, e'))

  -- A request that is completed from what is buffered, by a parser that waits for the request line, has
  -- taken some bytes.
  pub http_parser_execute-shorter :
      (p p' : HttpParser)
      → p.state ≡ request_line
      → http_parser_execute alloc p [] ≡ some (p', parser_complete)
      → length p'.buffer < length p.buffer
  unfolding http_parser_execute execute_received
  http_parser_execute-shorter p p' s e =
      execute_loop-shorter (rounds alloc p) p p' s (ground (arith, s, e))
