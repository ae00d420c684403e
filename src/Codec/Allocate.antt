-- ===== src/Codec/Allocate.antt =====
-- frameworks/av/media/libstagefright/ACodec.cpp: `allocateBuffersOnPort` and
-- `allocateOutputBuffersFromNativeWindow`.
use how_to_miracast_on_aosp.Prelude.{
  ℕ, zero, suc, ◌+◌, ◌-◌, ◌%◌, ◌^◌, Bool, true, not, ◌&&◌, ◌||◌, List, [], ◌∷◌, ◌++◌, map, none,
  some, ◌==◌, ltb, length, if◌then◌else◌,
}
use how_to_miracast_on_aosp.Rtsp.Machine.{◌>>=◌, ◌>>◌, return, check}
use how_to_miracast_on_aosp.Codec.{
  Port, input, output, us, Buffer, allocated, transfer, buffers_allocated, Codec, M, get, modify,
  emit, buffers, with_buffers,
}
use how_to_miracast_on_aosp.Codec.Outside.{Outside, WindowSetup}
use how_to_miracast_on_aosp.Codec.Buffers.{is_output, cancel_buffer_to_native_window}

abbrev pub dealer : Port → Codec → Bool
dealer input s = s.input_dealer
dealer output s = s.output_dealer

abbrev pub make_dealer : Port → Codec → Codec
make_dealer input s = record s { input_dealer = true }
make_dealer output s = record s { output_dealer = true }

-- `mBuffers[portIndex].push(info)`
abbrev pub push : Port → Buffer → M (Unit {0})
push p b = modify λ s. with_buffers p (buffers p s ++ b ∷ []) s

-- A buffer that the component was asked for is pushed whether the call fails or not, under the id
-- that the call leaves; `allocated` stands for the push.
unfoldable pub add_buffer : Outside → Port → ℕ → ℕ → M ℕ
add_buffer o p size graphic = do
  s ← get
  let status = o.allocate_status p s.log
  let id = o.new_id p s.log
  emit (transfer allocated p id)
  push p (record { id = id; status = us; capacity = size; graphic = graphic })
  return status

-- The loop of `n` more rounds; a later status takes the place of `err`.
unfoldable pub add_buffers : Outside → Port → ℕ → ℕ → M ℕ
unfolding add_buffer
add_buffers o p zero err = return err
add_buffers o p (suc n) err =
    check o.memory_ok >> add_buffer o p (o.buffer_size p) 0 >>= add_buffers o p n

-- The next step where the status of the one before is OK.
abbrev pub unless_error : ℕ → ℕ → ℕ
unless_error status next = if status == 0 then next else status

abbrev pub permission_denied : ℕ
permission_denied = 1

-- Protected buffers need a window that goes straight to the composer.
unfoldable pub authenticate : WindowSetup → Bool → ℕ
authenticate w secure =
    if (w.usage_status == 0 && w.usage_protected) || secure
    then unless_error w.composer_status (if w.queues_to_composer == 1 then 0 else permission_denied)
    else 0

-- `def.nBufferCountMin + minUndequeuedBufs`
abbrev pub wanted : WindowSetup → ℕ
wanted w = (w.count_min + w.min_undequeued) % 2 ^ 32

abbrev pub window_buffer_count : Outside → ℕ
window_buffer_count o =
    if ltb (o.buffer_count output) (wanted o.window) then wanted o.window else o.buffer_count output

-- The calls before the first buffer is dequeued, by the status of the first that fails.
unfoldable pub prepare_window : Outside → Bool → ℕ
unfolding authenticate
prepare_window o secure =
    let w = o.window in
    unless_error (o.definition_status output) (
      unless_error w.geometry_status (
        unless_error (authenticate w secure) (
          unless_error w.set_usage_status (
            unless_error w.undequeued_status (
              unless_error
                (if ltb (o.buffer_count output) (wanted w) then w.set_definition_status else 0)
                w.set_count_status)))))

unfoldable pub dequeue_buffers : Outside → ℕ → M ℕ
unfolding add_buffer
dequeue_buffers o zero = return 0
dequeue_buffers o (suc n) = do
  s ← get
  elim (o.dequeued s.log) [
    | none ↦ return (suc o.dequeue_error)
    | some h ↦ (do
      err ← add_buffer o output 0 h
      if err == 0 then dequeue_buffers o n else return err)
  ]

-- `n` rounds of the loop from `i`.
unfoldable pub cancel_from : Outside → ℕ → ℕ → M (Unit {0})
unfolding cancel_buffer_to_native_window
cancel_from o i zero = return tt
cancel_from o i (suc n) = cancel_buffer_to_native_window o i >> cancel_from o (i + 1) n

-- `def.nBufferCountActual - minUndequeuedBufs`
abbrev pub cancel_start : Outside → ℕ
cancel_start o = (window_buffer_count o + (2 ^ 32 - o.window.min_undequeued % 2 ^ 32)) % 2 ^ 32

unfoldable pub allocate_output_buffers_from_native_window : Outside → M ℕ
unfolding prepare_window dequeue_buffers cancel_from
allocate_output_buffers_from_native_window o = do
  s ← get
  let prepared = prepare_window o s.secure
  if prepared == 0
      then (do
        err ← dequeue_buffers o (window_buffer_count o)
        s ← get
        (if err == 0
            then cancel_from o (cancel_start o) (window_buffer_count o - cancel_start o)
            else cancel_from o 0 (length s.outputs))
        return err)
      else return prepared

unfoldable pub allocate_from_component : Outside → Port → M ℕ
unfolding add_buffers
allocate_from_component o p =
    if o.definition_status p == 0
    then modify (make_dealer p) >> add_buffers o p (o.buffer_count p) 0
    else return (o.definition_status p)

abbrev pub ids : List Buffer → List ℕ
ids bs = map (λ b. b.id) bs

unfoldable pub allocate_buffers_on_port : Outside → Port → M ℕ
unfolding allocate_output_buffers_from_native_window allocate_from_component
allocate_buffers_on_port o p = do
  s ← get
  check (not (dealer p s))
  check (length (buffers p s) == 0)
  err ←
      (if s.native_window && is_output p
        then allocate_output_buffers_from_native_window o
        else allocate_from_component o p)
  if err == 0
      then (do s ← get; emit (buffers_allocated p (ids (buffers p s))); return 0)
      else return err
