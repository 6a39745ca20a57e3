-- ===== src/Console/Fifo.antt =====
-- console.rs: the input buffer is a bounded queue.
use mathlib.Core.List.{append-nil, append_assoc}
use mina_os.Base.{
  ℕ, suc, ◌≤◌, ◌≡◌, refl, sym, ap, ◌∙◌, ◌||◌, Option, none, some, List, [], ◌∷◌, ◌++◌, arith, ltb,
  lt→ltb, ◌==◌, if◌then◌else◌, length, length-append, Bool-cases, inl, inr,
}
use mina_os.Console.{
  Console, default_in_buffer_size, wake, push_stdin, pop_stdin, init, pust_stdout, push_queue,
}

-- What an interrupt or a process may call.
pub data Call : Type 0 where
  push : ℕ → Call
  pop : Call
  put : ℕ → Call
  queue : ℕ → Call

unfoldable pub step : Call → Console → Console
step (push c) s = push_stdin c s
step pop s = (pop_stdin s).1
step (put c) s = (pust_stdout c s).1
step (queue pid) s = push_queue pid s

unfoldable pub run : List Call → Console → Console
run [] s = s
run (c ∷ cs) s = run cs (step c s)

abbrev contents : Console → List ℕ
contents s = elim s.in_buffer [ none ↦ [] | some buf ↦ buf ]

-- The bytes that a call takes into the buffer, and those that it hands out.
pub takes : Call → Console → List ℕ
takes (push c) s = if ltb (length (contents s)) default_in_buffer_size then c ∷ [] else []
takes _ s = []

pub gives : Call → Console → List ℕ
gives pop s = if ltb 0 (length (contents s)) then (pop_stdin s).0 ∷ [] else []
gives _ s = []

pub taken : List Call → Console → List ℕ
taken [] s = []
taken (c ∷ cs) s = takes c s ++ taken cs (step c s)

pub given : List Call → Console → List ℕ
given [] s = []
given (c ∷ cs) s = gives c s ++ given cs (step c s)

-- The buffer holds what was taken and not yet given, in order, and never more than its size.
pub record Holds (ins outs : List ℕ) (s : Console) : Type 0 where
  pub left : List ℕ
  pub buffered : s.in_buffer ≡ some left
  pub kept : ins ≡ outs ++ left
  pub bounded : length left ≤ default_in_buffer_size

wake-in_buffer : (s : Console) → (wake s).in_buffer ≡ s.in_buffer
unfolding wake
wake-in_buffer s =
    elim s.console_queue as (λ q. (wake (record s { console_queue = q })).in_buffer ≡ s.in_buffer) [
      | none ↦ refl
      | some q ↦ refl
    ]

push_stdin-in_buffer :
    (c : ℕ) (s : Console) (buf : List ℕ)
    → s.in_buffer ≡ some buf
    → (push_stdin c s).in_buffer
      ≡ some (if ltb (length buf) default_in_buffer_size then buf ++ (c ∷ []) else buf)
unfolding push_stdin
push_stdin-in_buffer c s buf e =
    rw (e, push_stdin)
      (elim (Bool-cases (ltb (length buf) default_in_buffer_size)) [
        | inr f ↦ rw f e
        | inl t ↦ rw t (elim (Bool-cases ((c == 10) || (c == 11))) [
          | inl line ↦ rw line (wake-in_buffer _)
          | inr other ↦ rw other refl
        ])
      ])

take_more : (ins outs left t : List ℕ) → ins ≡ outs ++ left → ins ++ t ≡ (outs ++ []) ++ (left ++ t)
take_more ins outs left t e = rw (e, append-nil outs) (append_assoc outs left t)

give_one :
    (ins outs left : List ℕ) (c : ℕ)
    → ins ≡ outs ++ (c ∷ left)
    → ins ++ [] ≡ (outs ++ (c ∷ [])) ++ left
give_one ins outs left c e = rw (append-nil ins, e) (sym (append_assoc outs (c ∷ []) left))

stay : (ins outs left : List ℕ) → ins ≡ outs ++ left → ins ++ [] ≡ (outs ++ []) ++ left
stay ins outs left e = rw (append-nil ins, append-nil outs) e

takes-push :
    (c : ℕ) (left : List ℕ) (s : Console)
    → s.in_buffer ≡ some left
    → takes (push c) s ≡ (if ltb (length left) default_in_buffer_size then c ∷ [] else [])
unfolding takes
takes-push c left s b =
    ap
      (λ (buf : Option (List ℕ)).
        if ltb (length (elim buf [ none ↦ [] | some cs ↦ cs ])) default_in_buffer_size
        then c ∷ []
        else [])
      b

push-Holds :
    (c : ℕ) (ins outs left : List ℕ) (s : Console)
    → s.in_buffer ≡ some left
    → ins ≡ outs ++ left
    → length left ≤ default_in_buffer_size
    → Holds (ins ++ takes (push c) s) (outs ++ []) (push_stdin c s)
push-Holds c ins outs left s b e l =
    rw (takes-push c left s b) (elim (Bool-cases (ltb (length left) default_in_buffer_size)) [
      | inl t ↦ rw t (record {
        left = left ++ (c ∷ []);
        buffered = push_stdin-in_buffer c s left b ∙ rw t refl;
        kept = take_more ins outs left (c ∷ []) e;
        bounded = ground (arith, length-append left (c ∷ []));
      })
      | inr f ↦ rw f (record {
        left = left;
        buffered = push_stdin-in_buffer c s left b ∙ rw f refl;
        kept = stay ins outs left e;
        bounded = l;
      })
    ])

pop-Holds :
    (ins outs left : List ℕ) (s : Console)
    → s.in_buffer ≡ some left
    → ins ≡ outs ++ left
    → length left ≤ default_in_buffer_size
    → Holds (ins ++ []) (outs ++ gives pop s) (pop_stdin s).1
unfolding gives pop_stdin
pop-Holds ins outs [] s b e l =
    rw b (record { left = []; buffered = refl; kept = stay ins outs [] e; bounded = l })
pop-Holds ins outs (c ∷ left) s b e l = rw b (record {
  left = left;
  buffered = refl;
  kept = rw (lt→ltb 0 (suc (length left)) (omega arith)) (give_one ins outs left c e);
  bounded = omega arith;
})

put-in_buffer : (c : ℕ) (s : Console) → (pust_stdout c s).1.in_buffer ≡ s.in_buffer
unfolding pust_stdout
put-in_buffer c s =
    elim s.out_buffer
      as (λ b. (pust_stdout c (record s { out_buffer = b })).1.in_buffer ≡ s.in_buffer) [
        | none ↦ refl
        | some buf ↦ refl
      ]

queue-in_buffer : (pid : ℕ) (s : Console) → (push_queue pid s).in_buffer ≡ s.in_buffer
unfolding push_queue
queue-in_buffer pid s =
    elim s.console_queue
      as (λ q. (push_queue pid (record s { console_queue = q })).in_buffer ≡ s.in_buffer) [
        | none ↦ refl
        | some q ↦ refl
      ]

step-Holds :
    (c : Call) (ins outs : List ℕ) (s : Console)
    → Holds ins outs s
    → Holds (ins ++ takes c s) (outs ++ gives c s) (step c s)
unfolding step takes gives
step-Holds (push c) ins outs s h = push-Holds c ins outs h.left s h.buffered h.kept h.bounded
step-Holds pop ins outs s h = pop-Holds ins outs h.left s h.buffered h.kept h.bounded
step-Holds (put c) ins outs s h = record {
  left = h.left;
  buffered = put-in_buffer c s ∙ h.buffered;
  kept = stay ins outs h.left h.kept;
  bounded = h.bounded;
}
step-Holds (queue pid) ins outs s h = record {
  left = h.left;
  buffered = queue-in_buffer pid s ∙ h.buffered;
  kept = stay ins outs h.left h.kept;
  bounded = h.bounded;
}

run-Holds :
    (cs : List Call) (ins outs : List ℕ) (s : Console)
    → Holds ins outs s
    → Holds (ins ++ taken cs s) (outs ++ given cs s) (run cs s)
unfolding taken given run
run-Holds [] ins outs s h = rw (append-nil ins, append-nil outs) h
run-Holds (c ∷ cs) ins outs s h =
    rw
      (
        ← append_assoc ins (takes c s) (taken cs (step c s)),
        ← append_assoc outs (gives c s) (given cs (step c s)),
      )
      (run-Holds cs (ins ++ takes c s) (outs ++ gives c s) (step c s) (step-Holds c ins outs s h))

-- From `init` on, after any history of calls, the bytes taken are the bytes given followed by those
-- in the buffer, each list in its order, and the buffer holds at most 1000 bytes.
pub run-init-Holds :
    (cs : List Call) (s : Console) → Holds (taken cs (init s)) (given cs (init s)) (run cs (init s))
unfolding init
run-init-Holds cs s =
    run-Holds cs [] [] (init s)
      (record { left = []; buffered = refl; kept = refl; bounded = omega arith })
