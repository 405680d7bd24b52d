-- ===== src/Copy/Flow.antt =====
-- One direction of the copy: what goes in comes out in order.
use cpp_tcp.Common.{
  ℕ, ◌+◌, ◌*◌, ◌^◌, ◌≤◌, ◌<◌, ◌≡◌, refl, sym, ap, ◌∙◌, arith, inl, inr, true, false, List, [], ◌++◌,
  append_assoc, append-nil, length, take, min, length-take, ltb, Bool-cases, if-both, subst, err,
  Error, IfReturns, IfReturns-step, IsPrefix,
}
use cpp_tcp.ByteStream
use cpp_tcp.ByteStream.{ByteStream, buffer_size, remaining_capacity}
use cpp_tcp.ByteStream.Invariant.{IsValid, sizes_lem, create-IsValid}
use cpp_tcp.ByteStream.Window.{contents}
use cpp_tcp.ByteStream.Refine.{write-Appended, write_ended, end_input_refines, pop_output-Popped}
use cpp_tcp.ByteStream.Accept.{peeked_lem}
use cpp_tcp.Buffer.Views
use cpp_tcp.Descriptor
use cpp_tcp.Descriptor.Whole.{write_once}
use cpp_tcp.EventLoop.{FdState}
use cpp_tcp.Copy.{Channel, fill, drain, finish_stream, end_stream, channel}

-- What was given and what the stream holds are a front part of what was taken, all of it as long as
-- the input has not ended.
pub record Flows (c : Channel) : Type 0 where
  pub valid : IsValid c.stream
  pub lost : List ℕ
  pub split : c.taken ≡ c.given ++ (contents c.stream ++ lost)
  pub open_whole : c.stream.end_flag ≡ false → lost ≡ []

pub end_stream-Flows : {c : Channel} → Flows c → Flows (end_stream c)
unfolding ByteStream.end_input buffer_size
end_stream-Flows {c} f = record {
  valid = (end_input_refines f.valid).0;
  lost = f.lost;
  split = f.split;
  open_whole = λ never. cc never;
}

-- The channel with bytes more.
abbrev filled : Channel → List ℕ → Channel
filled c bytes = record c { stream = (ByteStream.write c.stream bytes).0; taken = c.taken ++ bytes }

filled_open :
    {c : Channel} (bytes : List ℕ)
    → Flows c
    → c.stream.end_flag ≡ false
    → length bytes ≤ remaining_capacity c.stream
    → Flows (filled c bytes)
filled_open {c} bytes f open_yet fits =
    let a = write-Appended bytes f.valid open_yet (omega (arith, fits, (sizes_lem f.valid).0)) in
    record {
      valid = a.valid;
      lost = [];
      split = simp (f.split, f.open_whole open_yet, a.joined, append-nil, append_assoc);
      open_whole = λ _. refl;
    }

filled_ended :
    {c : Channel} (bytes : List ℕ) → Flows c → c.stream.end_flag ≡ true → Flows (filled c bytes)
filled_ended {c} bytes f ended =
    let same = write_ended c.stream bytes ended in
    record {
      valid = subst IsValid (sym same) f.valid;
      lost = f.lost ++ bytes;
      split = simp (f.split, same, append_assoc);
      open_whole = λ never. cc (never, ended, same);
    }

filled-Flows :
    {c : Channel} (bytes : List ℕ)
    → Flows c
    → length bytes ≤ remaining_capacity c.stream
    → Flows (filled c bytes)
filled-Flows {c} bytes f fits = elim (Bool-cases c.stream.end_flag) [
  | inl ended ↦ filled_ended bytes f ended
  | inr open_yet ↦ filled_open bytes f open_yet fits
]

-- A read brings no more than it was asked for.
read-few :
    (fd : FdState) (limit : ℕ) (got : List ℕ)
    → IfReturns (λ out. length out.0 ≤ limit) (Descriptor.read fd limit got)
unfolding Descriptor.read
read-few fd limit got =
    if-both (IfReturns (λ (out : List ℕ × FdState). length out.0 ≤ limit))
      (ltb (min (1024 * 1024) limit) (length got)) (err Error.runtime_error) _ (λ _. tt)
      λ fits. ground (arith, fits)

abbrev pub FlowsOn : Channel × FdState → Type 0
FlowsOn out = Flows out.0

pub fill-Flows :
    (c : Channel) (fd : FdState) (got : List ℕ) → Flows c → IfReturns FlowsOn (fill c fd got)
unfolding fill
fill-Flows c fd got f =
    IfReturns-step (λ out. length out.0 ≤ remaining_capacity c.stream) FlowsOn
      (Descriptor.read fd (remaining_capacity c.stream) got) _
      (read-few fd (remaining_capacity c.stream) got)
      λ (bytes, fd') few.
        if-both Flows fd'.eof (end_stream (filled c bytes)) (filled c bytes)
          (λ _. end_stream-Flows (filled-Flows bytes f few)) (λ _. filled-Flows bytes f few)

pub drain-Flows :
    (c : Channel) (fd : FdState) (taken_by : ℕ) → Flows c → IfReturns FlowsOn (drain c fd taken_by)
unfolding drain
drain-Flows c fd taken_by f =
    let bytes = ByteStream.peek_output c.stream (min 65536 (buffer_size c.stream)) in
    IfReturns-step (λ out. out.0 ≤ length bytes) FlowsOn
      (Descriptor.write (λ _. taken_by) false fd (Views.of_view bytes)) _
      (write_once taken_by fd bytes (
        omega (
          arith,
          ap length (peeked_lem 0 f.valid (omega arith)).0,
          length-take 65536 (contents c.stream),
        )))
      λ (n, fd') few.
        let (_, joined) = peeked_lem n f.valid few in
        record {
          valid = (pop_output-Popped n f.valid).valid;
          lost = f.lost;
          split =
              f.split
              ∙ ap (λ xs. c.given ++ (xs ++ f.lost)) joined
              ∙ ap (λ xs. c.given ++ xs)
                  (append_assoc (take n bytes) (contents (ByteStream.pop_output c.stream n)) f.lost)
              ∙ sym (
                  append_assoc c.given (take n bytes)
                    (contents (ByteStream.pop_output c.stream n) ++ f.lost));
          open_whole =
              λ open_yet. f.open_whole (sym (pop_output-Popped n f.valid).end_flag ∙ open_yet);
        }

pub finish-Flows :
    (finish : FdState → FdState) (out : Channel × FdState)
    → FlowsOn out
    → FlowsOn (finish_stream finish out)
unfolding finish_stream
finish-Flows finish (c, fd) f =
    if-both FlowsOn (ByteStream.eof c.stream) (record c { shutdown = true }, finish fd) (c, fd)
      (λ _. record { valid = f.valid; lost = f.lost; split = f.split; open_whole = f.open_whole })
      (λ _. f)

contents-create :
    (capacity : ℕ) → capacity + 1 < 2 ^ 63 → contents (ByteStream.create capacity) ≡ []
contents-create capacity small = rw (create-IsValid capacity small).1 refl

pub channel-Flows : Flows channel
channel-Flows = record {
  valid = (create-IsValid 1048576 (omega arith)).0;
  lost = [];
  split = sym (ap (λ xs. xs ++ []) (contents-create 1048576 (omega arith)));
  open_whole = λ _. refl;
}

-- What is given is a front part of what is taken.
pub Flows-IsPrefix : {c : Channel} → Flows c → IsPrefix c.given c.taken
Flows-IsPrefix {c} f = (contents c.stream ++ f.lost, f.split)
