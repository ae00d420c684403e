-- ===== src/Codec/Buffers.antt =====
-- frameworks/av/media/libstagefright/ACodec.cpp: finding, cancelling, dequeuing and freeing
-- buffers, and counting those that are with others. A pointer to a BufferInfo is its index.
use how_to_miracast_on_aosp.Prelude.{
  ℕ, zero, suc, ◌+◌, Bool, true, false, not, ◌&&◌, ◌||◌, List, [], ◌∷◌, Option, none, some, ◌==◌,
  length, if◌then◌else◌,
}
use how_to_miracast_on_aosp.Rtsp.Machine.{◌>>=◌, ◌>>◌, return, check}
use how_to_miracast_on_aosp.Codec.{
  Port, input, output, Owner, us, component, downstream, native_window, same_owner, Buffer,
  cancel_buffer, dequeue_buffer, free_buffer, transfer, Codec, M, get, modify, emit, read, buffers,
  with_buffers, buffer_at, pass,
}
use how_to_miracast_on_aosp.Codec.Outside.{Outside}

abbrev pub is_output : Port → Bool
is_output input = false
is_output output = true

-- Ours or the native window's.
abbrev pub at_home : Owner → Bool
at_home o = same_owner o us || same_owner o native_window

-- The first buffer with an id, counted from `i`.
unfoldable pub index_of : ℕ → ℕ → List Buffer → Option ℕ
index_of k i [] = none
index_of k i (b ∷ bs) = if b.id == k then some i else index_of k (i + 1) bs

-- `findBufferByID`
unfoldable pub find_buffer_by_id : Port → ℕ → M ℕ
unfolding index_of
find_buffer_by_id p k = do s ← get; read (index_of k 0 (buffers p s))

unfoldable pub cancel_buffer_to_native_window : Outside → ℕ → M (Unit {0})
unfolding buffer_at pass
cancel_buffer_to_native_window o i = do
  b ← buffer_at output i
  check (same_owner b.status us)
  check o.cancel_ok
  pass output i cancel_buffer

-- The last buffer with a handle, counted from `i`.
unfoldable pub last_with_handle : ℕ → ℕ → List Buffer → Option ℕ
last_with_handle h i [] = none
last_with_handle h i (b ∷ bs) = elim (last_with_handle h (i + 1) bs) [
  | some j ↦ some j
  | none ↦ if b.graphic == h then some i else none
]

unfoldable pub take_back : ℕ → M (Option ℕ)
unfolding last_with_handle buffer_at pass
take_back h = do
  s ← get
  i ← read (last_with_handle h 0 s.outputs)
  b ← buffer_at output i
  check (same_owner b.status native_window)
  pass output i dequeue_buffer
  return (some i)

-- none where the code returns NULL.
unfoldable pub take_back_answer : Option ℕ → M (Option ℕ)
unfolding take_back
take_back_answer none = return none
take_back_answer (some h) = take_back h

unfoldable pub dequeue_buffer_from_native_window : Outside → M (Option ℕ)
unfolding take_back_answer
dequeue_buffer_from_native_window o = do s ← get; take_back_answer (o.dequeued s.log)

-- `mBuffers[portIndex].removeAt(i)`
unfoldable pub remove_at : ℕ → List Buffer → List Buffer
remove_at i [] = []
remove_at zero (b ∷ bs) = bs
remove_at (suc i) (b ∷ bs) = b ∷ remove_at i bs

unfoldable pub release : Port → ℕ → M (Unit {0})
unfolding buffer_at remove_at
release p i = do
  b ← buffer_at p i
  emit (transfer free_buffer p b.id)
  modify λ s. with_buffers p (remove_at i (buffers p s)) s

-- `freeBuffer`
unfoldable pub free_buffer_at : Outside → Port → ℕ → M (Unit {0})
unfolding buffer_at cancel_buffer_to_native_window release
free_buffer_at o p i = do
  b ← buffer_at p i
  check (at_home b.status)
  s ← get
  (if is_output p && (s.native_window && same_owner b.status us)
      then cancel_buffer_to_native_window o i
      else return tt)
  check o.free_ok
  release p i

-- The last `n` rounds of the loop, down from `i = n - 1`.
unfoldable pub free_down : Outside → Port → ℕ → M (Unit {0})
unfolding free_buffer_at
free_down o p zero = return tt
free_down o p (suc i) = free_buffer_at o p i >> free_down o p i

abbrev pub clear_dealer : Port → Codec → Codec
clear_dealer input s = record s { input_dealer = false }
clear_dealer output s = record s { output_dealer = false }

unfoldable pub free_buffers_on_port : Outside → Port → M (Unit {0})
unfolding free_down
free_buffers_on_port o p = do s ← get; free_down o p (length (buffers p s)); modify (clear_dealer p)

unfoldable pub free_if_not_owned : Outside → ℕ → M (Unit {0})
unfolding buffer_at free_buffer_at
free_if_not_owned o i = do
  b ← buffer_at output i
  if same_owner b.status component
      then return tt
      else check (not (same_owner b.status downstream)) >> free_buffer_at o output i

unfoldable pub free_not_owned_down : Outside → ℕ → M (Unit {0})
unfolding free_if_not_owned
free_not_owned_down o zero = return tt
free_not_owned_down o (suc i) = free_if_not_owned o i >> free_not_owned_down o i

unfoldable pub free_output_buffers_not_owned_by_component : Outside → M (Unit {0})
unfolding free_not_owned_down
free_output_buffers_not_owned_by_component o = do s ← get; free_not_owned_down o (length s.outputs)

-- `countBuffersOwnedByComponent`
unfoldable pub count_owned_by_component : List Buffer → ℕ
count_owned_by_component [] = 0
count_owned_by_component (b ∷ bs) =
    (if same_owner b.status component then 1 else 0) + count_owned_by_component bs

-- `allYourBuffersAreBelongToUs` for one port and for both.
unfoldable pub all_home : List Buffer → Bool
all_home [] = true
all_home (b ∷ bs) = at_home b.status && all_home bs

unfoldable pub all_your_buffers_are_belong_to_us : Codec → Bool
unfolding all_home
all_your_buffers_are_belong_to_us s = all_home s.inputs && all_home s.outputs
