-- ===== src/Tracer/Loop/Traps.antt =====
-- wait_for_next_trap: what a status of waitpid says.
use ia2_phase.Base.{ℕ, Bool, Option, none, some, ◌==◌, ◌||◌, ◌&&◌, ltb, if◌then◌else◌, ◌/◌, ◌%◌}

pub data WaitTrapResult : Type 0 where
  wait_syscall wait_stop wait_group_stop wait_exited wait_signaled wait_sigsegv : WaitTrapResult
  wait_sigchld wait_error wait_ptrace_clone wait_ptrace_fork wait_exec wait_cont : WaitTrapResult

-- The macros of sys/wait.h.
unfoldable pub wifexited : ℕ → Bool
wifexited stat = stat % 128 == 0

unfoldable pub wexitstatus : ℕ → ℕ
wexitstatus stat = stat / 256 % 256

unfoldable pub wifsignaled : ℕ → Bool
wifsignaled stat = ltb 0 (stat % 128) && ltb (stat % 128) 127

unfoldable pub wifstopped : ℕ → Bool
wifstopped stat = stat % 256 == 127

unfoldable pub wstopsig : ℕ → ℕ
wstopsig stat = stat / 256 % 256

-- `group_stop` says that PTRACE_GETSIGINFO failed with EINVAL.
unfoldable pub signal_stop : ℕ → Bool → WaitTrapResult
signal_stop signal group_stop =
    if signal == 133
    then wait_syscall
    else if signal == 19 || signal == 20 || signal == 21 || signal == 22
    then (if group_stop then wait_group_stop else wait_stop)
    else if signal == 18
    then wait_cont
    else if signal == 17
    then wait_sigchld
    else if signal == 11
    then wait_sigsegv
    else wait_error

-- An event that is not known is told apart by its signal.
unfoldable pub ptrace_stop : ℕ → WaitTrapResult → WaitTrapResult
ptrace_stop event by_signal =
    if event == 3
    then wait_ptrace_clone
    else if event == 1
    then wait_ptrace_fork
    else if event == 7
    then wait_syscall
    else if event == 4
    then wait_exec
    else if event == 128
    then wait_stop
    else by_signal

-- `none` is an error of waitpid. The second part is the exit status, where it is stored.
unfoldable pub wait_for_next_trap : Option ℕ → ℕ → Bool → WaitTrapResult × Option ℕ
unfolding wifexited wexitstatus wifsignaled wifstopped wstopsig signal_stop ptrace_stop
wait_for_next_trap none stat group_stop = (wait_error, none)
wait_for_next_trap (some pid) stat group_stop =
    if wifexited stat
    then (wait_exited, some (wexitstatus stat))
    else if wifsignaled stat
    then (wait_signaled, none)
    else if wifstopped stat
    then (ptrace_stop (stat / 65536) (signal_stop (wstopsig stat) group_stop), none)
    else (wait_error, none)
