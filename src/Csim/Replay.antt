-- ===== src/Csim/Replay.antt =====
-- `replayTrace` of src/cache/csim.c on a cache in use: every access of the trace is a hit or a miss.
use ch_arm_v5_system_emulato.Base.{
  ℕ, ◌+◌, ◌≤◌, ◌||◌, List, [], ◌∷◌, some, ◌>>=◌, get_or, drop, ◌==◌, if◌then◌else◌, Bool-cases, ◌≡◌,
  inl, inr, refl, arith,
}
use ch_arm_v5_system_emulato.Cache.{Cache, Operation, read, write, access_data}
use ch_arm_v5_system_emulato.Cache.Valid.{IsCache}
use ch_arm_v5_system_emulato.Cache.Hit.{access_data-counted}
use ch_arm_v5_system_emulato.Cache.Miss.{evictions}
use ch_arm_v5_system_emulato.Csim.{
  Scan, is_operation, replay_operation, replay_line, replay_lines, replay_trace,
}

-- The accesses of a line and of a trace.
abbrev pub accesses_of : ℕ → ℕ
accesses_of op = if op == 83 || op == 76 then 1 else if op == 77 then 2 else 0

abbrev pub trace_accesses : List (List ℕ) → ℕ
trace_accesses [] = 0
trace_accesses (buf ∷ bufs) = accesses_of (get_or buf 1 0) + trace_accesses bufs

-- A cache in use that has seen `n` accesses more, with no more new evictions than new misses; the
-- counts are those of the code's `int`s where they stay below 2^31.
pub record Counted (n : ℕ) (cache cache' : Cache) : Type 0 where
  pub used : IsCache cache'
  pub count : cache'.hit_count + cache'.miss_count ≡ n + (cache.hit_count + cache.miss_count)
  pub evicted : evictions cache' + cache.miss_count ≤ evictions cache + cache'.miss_count

access_data-Counted :
    (cache : Cache) (addr : ℕ) (operation : Operation)
    → IsCache cache
    → (cache' : Cache) × (access_data cache addr operation ≡ some cache') × Counted 1 cache cache'
access_data-Counted cache addr operation h =
    let (cache', runs, used, _, hits, misses, evicted) =
      access_data-counted cache addr operation h in
    (cache', runs, record { used = used; count = ground arith; evicted = evicted })

replay_operation-Counted :
    (op addr : ℕ) (cache : Cache)
    → IsCache cache
    → (cache' : Cache) × (replay_operation op addr cache ≡ some cache')
      × Counted (accesses_of op) cache cache'
unfolding replay_operation
replay_operation-Counted op addr cache h = elim (Bool-cases (op == 83)) [
  | inl e ↦
      let (c, runs, counted) = access_data-Counted cache addr write h in
      (c, rw (e, if◌then◌else◌) runs, rw (e, if◌then◌else◌) counted)
  | inr ne ↦ elim (Bool-cases (op == 76)) [
    | inl e ↦
        let (c, runs, counted) = access_data-Counted cache addr read h in
        (c, rw (ne, e, if◌then◌else◌) runs, rw (ne, e, if◌then◌else◌) counted)
    | inr ne' ↦ elim (Bool-cases (op == 77)) [
      | inl e ↦
          let (c, runs, counted) = access_data-Counted cache addr read h in
          let (c', runs', counted') = access_data-Counted c addr write counted.used in
          (
            c',
            rw (ne, ne', e, if◌then◌else◌, runs, ◌>>=◌) runs',
            record {
              used = counted'.used;
              count =
                  let first = counted.count in
                  let second = counted'.count in rw (ne, ne', e, if◌then◌else◌) (omega arith);
              evicted = let one = counted.evicted in let two = counted'.evicted in omega arith;
            },
          )
      | inr ne'' ↦ (
        cache,
        rw (ne, ne', ne'', if◌then◌else◌) refl,
        record {
          used = h;
          count = rw (ne, ne', ne'', if◌then◌else◌) (omega arith);
          evicted = omega arith;
        },
      )
    ]
  ]
]

replay_line-Counted :
    (scan : Scan) (buf : List ℕ) (addr len : ℕ) (cache : Cache)
    → IsCache cache
    → (addr' len' : ℕ) × (cache' : Cache) × (replay_line scan buf addr len cache
        ≡ some (addr', len', cache'))
      × Counted (accesses_of (get_or buf 1 0)) cache cache'
unfolding replay_line
replay_line-Counted scan buf addr len cache h =
    let op = get_or buf 1 0 in
    let addr' = (scan (drop 3 buf) addr len).0 in
    let len' = (scan (drop 3 buf) addr len).1 in
    elim (Bool-cases (is_operation op)) [
      | inl e ↦
          let (c, runs, first) = replay_operation-Counted op addr' cache h in
          (addr', len', c, rw (if◌then◌else◌, e, runs, ◌>>=◌) refl, first)
      | inr e ↦
          let none_here : accesses_of op ≡ 0 = ground arith in
          (
            addr,
            len,
            cache,
            rw (if◌then◌else◌, e) refl,
            record { used = h; count = omega arith; evicted = omega arith },
          )
    ]

replay_lines-Counted :
    (scan : Scan) (bufs : List (List ℕ)) (addr len : ℕ) (cache : Cache)
    → IsCache cache
    → (cache' : Cache) × (replay_lines scan bufs addr len cache ≡ some cache')
      × Counted (trace_accesses bufs) cache cache'
unfolding replay_lines
replay_lines-Counted scan [] addr len cache h =
    (cache, refl, record { used = h; count = omega arith; evicted = omega arith })
replay_lines-Counted scan (buf ∷ bufs) addr len cache h =
    let (addr', len', c, runs, first) = replay_line-Counted scan buf addr len cache h in
    let (c', runs', rest) = replay_lines-Counted scan bufs addr' len' c first.used in
    (
      c',
      rw (runs, ◌>>=◌) runs',
      record {
        used = rest.used;
        count = let one = first.count in let all = rest.count in omega arith;
        evicted = let one = first.evicted in let all = rest.evicted in omega arith;
      },
    )

-- The whole trace.
pub replay_trace-Counted :
    (scan : Scan) (bufs : List (List ℕ)) (cache : Cache)
    → IsCache cache
    → (cache' : Cache) × (replay_trace scan bufs cache ≡ some cache')
      × Counted (trace_accesses bufs) cache cache'
unfolding replay_trace
replay_trace-Counted scan bufs cache h = replay_lines-Counted scan bufs 0 0 cache h
