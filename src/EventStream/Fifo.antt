-- ===== src/EventStream/Fifo.antt =====
-- What a reader of one stream of tmux/event_stream.go sees.
use gotmux.Prelude.{
  ◌≡◌, refl, sym, ap, ◌∙◌, Option, none, some, List, [], ◌∷◌, ◌++◌, append_assoc, append-nil, Error,
  err_events_lost, Result, ok, err, if◌then◌else◌, Option-cases, inl, inr, arith,
}
use gotmux.Events.{Event}
use gotmux.EventStream.{EventStream, mark, append_event, lost, poll}

-- The sections that touch one stream: the publisher's `push` with the end that an overflow
-- brings, the end that another caller brings, a round of `Next`.
pub data Call : Type 0 where
  put : Event → Call
  stop : Error → Call
  take_next : Option Error → Call

unfoldable pub put_event : Event → EventStream → EventStream
put_event e s = if lost e s then mark err_events_lost s else append_event e s

delivered : Option (Result Event) → List Event
delivered none = []
delivered (some (err e)) = []
delivered (some (ok v)) = v ∷ []

-- The events that the calls hand to the reader, in order, and the stream they leave.
unfoldable pub serve : List Call → EventStream → List Event × EventStream
unfolding delivered
serve [] s = ([], s)
serve (put e ∷ rest) s = serve rest (put_event e s)
serve (stop e ∷ rest) s = serve rest (mark e s)
serve (take_next ctx ∷ rest) s =
    let r = serve rest (poll ctx s).1 in (delivered (poll ctx s).0 ++ r.0, r.1)

-- The events that the calls publish.
abbrev pub published : List Call → List Event
published [] = []
published (put e ∷ rest) = e ∷ published rest
published (stop e ∷ rest) = published rest
published (take_next ctx ∷ rest) = published rest

-- An ended stream stays ended, with the error it ended with.
mark_sticky : (e t : Error) (s : EventStream) → s.terminal ≡ some t → (mark e s).terminal ≡ some t
unfolding mark
mark_sticky e t s h = ground arith

put_event_sticky :
    (e : Event) (t : Error) (s : EventStream)
    → s.terminal ≡ some t
    → (put_event e s).terminal ≡ some t
unfolding put_event append_event lost
put_event_sticky e t s h = ground arith

poll_sticky :
    (ctx : Option Error) (t : Error) (s : EventStream)
    → s.terminal ≡ some t
    → (poll ctx s).1.terminal ≡ some t
unfolding poll
poll_sticky ctx t s h = ground arith

pub serve_sticky :
    (calls : List Call) (t : Error) (s : EventStream)
    → s.terminal ≡ some t
    → (serve calls s).1.terminal ≡ some t
unfolding serve
serve_sticky [] t s h = h
serve_sticky (put e ∷ rest) t s h = serve_sticky rest t (put_event e s) (put_event_sticky e t s h)
serve_sticky (stop e ∷ rest) t s h = serve_sticky rest t (mark e s) (mark_sticky e t s h)
serve_sticky (take_next ctx ∷ rest) t s h =
    serve_sticky rest t (poll ctx s).1 (poll_sticky ctx t s h)

put_event-queue :
    (e : Event) (s : EventStream)
    → (put_event e s).terminal ≡ none
    → (put_event e s).queue ≡ s.queue ++ e ∷ []
unfolding put_event append_event lost mark
put_event-queue e s h = ground arith

mark-terminal : (e : Error) (s : EventStream) → (t : Error) × ((mark e s).terminal ≡ some t)
unfolding mark
mark-terminal e s = elim (Option-cases s.terminal) [
  | inl q ↦ (e, ground arith)
  | inr (t, q) ↦ (t, ground arith)
]

poll-queue :
    (ctx : Option Error) (s : EventStream)
    → (poll ctx s).1.terminal ≡ none
    → s.queue ≡ delivered (poll ctx s).0 ++ (poll ctx s).1.queue
unfolding poll delivered
poll-queue ctx s h = ground arith

poll-ended :
    (ctx : Option Error) (t : Error) (s : EventStream)
    → (poll ctx s).1.terminal ≡ some t
    → delivered (poll ctx s).0 ≡ []
unfolding poll delivered
poll-ended ctx t s h = ground arith

-- Nothing is delivered from a stream that has ended.
serve-ended :
    (calls : List Call) (t : Error) (s : EventStream) → s.terminal ≡ some t → (serve calls s).0 ≡ []
unfolding serve
serve-ended [] t s h = refl
serve-ended (put e ∷ rest) t s h = serve-ended rest t (put_event e s) (put_event_sticky e t s h)
serve-ended (stop e ∷ rest) t s h = serve-ended rest t (mark e s) (mark_sticky e t s h)
serve-ended (take_next ctx ∷ rest) t s h =
    rw
      (
        poll-ended ctx t s (poll_sticky ctx t s h),
        serve-ended rest t (poll ctx s).1 (poll_sticky ctx t s h),
      )
      refl

-- What was queued or published is what was delivered, and then what is still missing.
abbrev pub Missing : List Call → EventStream → List Event → Type 0
Missing calls s missing = s.queue ++ published calls ≡ (serve calls s).0 ++ missing

serve-put :
    (e : Event) (calls : List Call) (s : EventStream) (m : List Event)
    → (put_event e s).terminal ≡ none
    → Missing calls (put_event e s) m
    → Missing (put e ∷ calls) s m
unfolding serve
serve-put e calls s m h k =
    sym (append_assoc s.queue (e ∷ []) (published calls))
    ∙ ap (λ q. q ++ published calls) (sym (put_event-queue e s h))
    ∙ k

serve-take_next :
    (ctx : Option Error) (calls : List Call) (s : EventStream) (m : List Event)
    → (poll ctx s).1.terminal ≡ none
    → Missing calls (poll ctx s).1 m
    → Missing (take_next ctx ∷ calls) s m
unfolding serve
serve-take_next ctx calls s m h k =
    let d = delivered (poll ctx s).0 in
    ap (λ q. q ++ published calls) (poll-queue ctx s h)
    ∙ append_assoc d (poll ctx s).1.queue (published calls)
    ∙ ap (λ q. d ++ q) k
    ∙ sym (append_assoc d (serve calls (poll ctx s).1).0 m)

pub serve-Missing : (calls : List Call) (s : EventStream) → (m : List Event) × Missing calls s m
unfolding serve
serve-Missing [] s = (s.queue, append-nil s.queue)
serve-Missing (put e ∷ rest) s = elim (Option-cases (put_event e s).terminal) [
  | inl q ↦ let k = serve-Missing rest (put_event e s) in (k.0, serve-put e rest s k.0 q k.1)
  | inr (t, q) ↦ (s.queue ++ e ∷ published rest, rw (serve-ended rest t (put_event e s) q) refl)
]
serve-Missing (stop e ∷ rest) s =
    let t = mark-terminal e s in
    (s.queue ++ published rest, rw (serve-ended rest t.0 (mark e s) t.1) refl)
serve-Missing (take_next ctx ∷ rest) s = elim (Option-cases (poll ctx s).1.terminal) [
  | inl q ↦ let k = serve-Missing rest (poll ctx s).1 in (k.0, serve-take_next ctx rest s k.0 q k.1)
  | inr (t, q) ↦ (
    s.queue ++ published rest,
    rw (poll-ended ctx t s q, serve-ended rest t (poll ctx s).1 q) refl,
  )
]

-- A stream that has not ended after the calls has not ended before them.
open_before :
    (calls : List Call) (s : EventStream) → (serve calls s).1.terminal ≡ none → s.terminal ≡ none
open_before calls s h = elim (Option-cases s.terminal) [
  | inl q ↦ q
  | inr (t, q) ↦ cc (h, serve_sticky calls t s q)
]

serve-open :
    (calls : List Call) (s : EventStream)
    → (serve calls s).1.terminal ≡ none
    → Missing calls s (serve calls s).1.queue
unfolding serve
serve-open [] s h = append-nil s.queue
serve-open (put e ∷ rest) s h =
    serve-put e rest s (serve rest (put_event e s)).1.queue (open_before rest (put_event e s) h)
      (serve-open rest (put_event e s) h)
serve-open (stop e ∷ rest) s h =
    let t = mark-terminal e s in cc (open_before rest (mark e s) h, t.1)
serve-open (take_next ctx ∷ rest) s h =
    let p = (poll ctx s).1 in
    serve-take_next ctx rest s (serve rest p).1.queue (open_before rest p h) (serve-open rest p h)

-- Whatever is published to a stream, and whatever ends it, between the rounds of its reader: the
-- reader is given what was queued and then published, in that order, without a gap. While the
-- stream has not ended nothing is lost: what is still missing is its queue.
pub serve-lossless :
    (calls : List Call) (s : EventStream)
    → ((m : List Event) × Missing calls s m)
      × ((serve calls s).1.terminal ≡ none → Missing calls s (serve calls s).1.queue)
serve-lossless calls s = (serve-Missing calls s, serve-open calls s)
