-- ===== src/Sink/Tunnel/Stream/Fill.antt =====
-- sink/TunnelRenderer.cpp, `StreamSource::doSomeWork`: which buffers are filled, and with what.
use how_to_miracast_on_aosp.Prelude.{
  ℕ, suc, ◌+◌, ◌%◌, ◌^◌, ◌≤◌, ◌≡◌, refl, ap, List, [], ◌∷◌, ◌++◌, some, leb, ◌==◌, ◌&&◌, length,
  get_elem?, arith, Option-cases, Bool-cases, inl, inr,
}
use how_to_miracast_on_aosp.Prelude.Int.{ℤ}
use how_to_miracast_on_aosp.Prelude.Outcome.{Ensures, Ensures->>=}
use how_to_miracast_on_aosp.Sink.Tunnel.{Packet, size, Renderer, dequeue_buffer}
use how_to_miracast_on_aosp.Sink.Tunnel.Stream.{
  Command, discontinuity, queue, fill, mark_start, Work, do_some_work,
}

-- The indices of the buffers that are queued.
abbrev pub filled : List Command → List ℕ
filled [] = []
filled (discontinuity t ∷ cs) = filled cs
filled (queue i contents ∷ cs) = i ∷ filled cs

-- Every buffer queued exists, is large enough and gets whole transport packets of 188 bytes.
abbrev pub AllWhole : List ℕ → List Command → Type 0
AllWhole buffers [] = Unit {0}
AllWhole buffers (discontinuity t ∷ cs) = AllWhole buffers cs
AllWhole buffers (queue i contents ∷ cs) =
    ((capacity : ℕ) × (get_elem? buffers i ≡ some capacity)
      × (length contents ≤ capacity)
      × (length contents % 188 ≡ 0))
    × AllWhole buffers cs

filled-mark_start :
    (num : ℕ) (now : ℤ) (cs : List Command) → filled (mark_start num now ++ cs) ≡ filled cs
unfolding mark_start
filled-mark_start num now cs = ground arith

AllWhole-mark_start :
    (buffers : List ℕ) (num : ℕ) (now : ℤ) (cs : List Command)
    → AllWhole buffers cs
    → AllWhole buffers (mark_start num now ++ cs)
unfolding mark_start
AllWhole-mark_start buffers num now cs h = elim (Bool-cases (num == 1)) [
  | inl e ↦ rw e h
  | inr e ↦ rw e h
]

filled-cons : (c : Command) (cs : List Command) → filled (c ∷ cs) ≡ filled (c ∷ []) ++ filled cs
filled-cons (discontinuity t) cs = refl
filled-cons (queue i contents) cs = refl

AllWhole-cons :
    (buffers : List ℕ) (c : Command) (cs : List Command)
    → AllWhole buffers (c ∷ [])
    → AllWhole buffers cs
    → AllWhole buffers (c ∷ cs)
AllWhole-cons buffers (discontinuity t) cs h k = k
AllWhole-cons buffers (queue i contents) cs h k = (h.0, k)

abbrev GoodFill : List ℕ → ℕ → Command → Type 0
GoodFill buffers i c = (filled (c ∷ []) ≡ i ∷ []) × AllWhole buffers (c ∷ [])

fill-GoodFill :
    (buffers : List ℕ) (i : ℕ) (p : Packet) → Ensures (GoodFill buffers i) (fill buffers i p)
unfolding fill
fill-GoodFill buffers i p = elim (Option-cases (get_elem? buffers i)) [
  | inl e ↦ rw (e, fill) tt
  | inr (capacity, e) ↦ elim (Bool-cases (leb (size p) capacity && size p % 188 == 0)) [
    | inl fits ↦ rw (e, fill, fits) (refl, ((capacity, e, ground arith, ground arith), tt))
    | inr no_fit ↦ rw (e, fill, no_fit) tt
  ]
]

abbrev pub GoodWork : List ℕ → List ℕ → Work → Type 0
GoodWork buffers indices w = (filled w.3 ++ w.2 ≡ indices) × AllWhole buffers w.3

-- Buffers are filled in the order in which they became available, each once, and those left keep
-- their order. What is queued fits its buffer and is a multiple of 188 bytes.
pub do_some_work-GoodWork :
    (times : ℕ → ℤ × ℤ) (buffers : List ℕ) (r : Renderer) (num : ℕ) (indices : List ℕ)
    → Ensures (GoodWork buffers indices) (do_some_work times buffers r num indices)
unfolding do_some_work
do_some_work-GoodWork times buffers r num [] = (refl, tt)
do_some_work-GoodWork times buffers r num (i ∷ rest) =
    let (r', o, asked) = dequeue_buffer r (times 0).0 in
    let num' = (num + 1) % 2 ^ 32 in
    elim (Option-cases o) [
      | inl e ↦ rw (e, do_some_work) (refl, tt)
      | inr (p, e) ↦
          rw (e, do_some_work)
            (Ensures->>= (GoodFill buffers i) (GoodWork buffers (i ∷ rest)) (fill buffers i p) _
              (fill-GoodFill buffers i p)
              λ c good.
                Ensures->>= (GoodWork buffers rest) (GoodWork buffers (i ∷ rest))
                  (do_some_work (λ k. times (suc k)) buffers r' num' rest) _
                  (do_some_work-GoodWork (λ k. times (suc k)) buffers r' num' rest)
                  λ w works. (
                    rw (filled-mark_start num' (times 0).1 (c ∷ w.3), filled-cons c w.3, good.0)
                        (ap (◌∷◌ i) works.0),
                    AllWhole-mark_start buffers num' (times 0).1 (c ∷ w.3)
                        (AllWhole-cons buffers c w.3 good.1 works.1),
                  ))
    ]
