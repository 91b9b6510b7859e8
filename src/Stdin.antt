-- ===== src/Stdin.antt =====
-- The keyboard's characters as a file: `kern/fs/stdio/stdin_inode.c`.
--
-- A character is its code. The ring `stdin_buffer` is a function of the index; `p_rpos` and `p_wpos` are
-- `int32_t` as words. A read that finds no character sleeps, so that it is a first part and one more part
-- for each time that it is woken; each part runs with the interrupts off. `none` is a panic of `wakeupAll`.
pub mod Ring
mod Tests
use freak_os.Base.{
  ℕ, zero, suc, ◌+◌, ◌-◌, ◌%◌, ◌^◌, Bool, true, false, not, List, [], ◌∷◌, ◌++◌, Option, none, some,
  ltb, ◌==◌, if◌then◌else◌, update,
}
use freak_os.Base.Word.{add32}
use freak_os.Sched.{Sched, schedule}
use freak_os.Wait.{Waits, waitlist_is_empty, wakeup_all, wait_add_current, wait_del_current}

abbrev pub stdin_buf_len : ℕ
stdin_buf_len = 2048

abbrev pub wt_kbd : ℕ
wt_kbd = 0x8000_0004

pub record Stdin : Type 0 where
  pub buffer : ℕ → ℕ
  pub rpos : ℕ
  pub wpos : ℕ
  pub waits : Waits

-- The character is stored whether there is room or not; the position only moves when there is.
pub store : ℕ → Stdin → Stdin
store c d = record d {
  buffer = update d.buffer (d.wpos % stdin_buf_len) c;
  wpos = if ltb (d.wpos - d.rpos) stdin_buf_len then add32 d.wpos 1 else d.wpos;
}

pub stdin_do_write : ℕ → Stdin → Sched → Option (Stdin × Sched)
unfolding store
stdin_do_write c d s =
    let e = store c d in
    if c == 0
    then some (d, s)
    else if waitlist_is_empty e.waits
    then some (e, s)
    else elim (wakeup_all wt_kbd true e.waits s) [
      | none ↦ none
      | some (w, t) ↦ some (record e { waits = w }, t)
    ]

-- The rounds of the loop, at most `len`, that find a character.
pub read_ready : ℕ → Stdin → List ℕ × Stdin
read_ready zero d = ([], d)
read_ready (suc len) d =
    let (cs, rest) = read_ready len (record d { rpos = add32 d.rpos 1 }) in
    if ltb d.rpos d.wpos then (d.buffer (d.rpos % stdin_buf_len) ∷ cs, rest) else ([], d)

abbrev pub count : List ℕ → ℕ
count [] = 0
count (c ∷ cs) = suc (count cs)

-- One part of `_stdin_do_read`: the characters that it stores, and how many are still wanted, `none` where
-- it returns; else it has gone to sleep.
pub read_part : ℕ → Stdin → Sched → List ℕ × Option ℕ × Stdin × Sched
unfolding read_ready
read_part len d s =
    let (cs, e) = read_ready len d in
    let (w, t) = wait_add_current wt_kbd e.waits s in
    if count cs == len
    then (cs, none, e, s)
    else (cs, some (len - count cs), record e { waits = w }, schedule t)

-- The part that runs when the task is woken. It goes on only where a character woke it.
pub read_woken : ℕ → Stdin → Sched → List ℕ × Option ℕ × Stdin × Sched
unfolding read_part
read_woken len d s =
    let e : Stdin = record d { waits = wait_del_current d.waits s } in
    if e.waits.flags s.current == wt_kbd then read_part len e s else ([], none, e, s)
