-- ===== src/Tests.antt =====
-- Runs of the modelled code at concrete inputs, and the theorems at inputs that meet their
-- hypotheses.
mod SerialRuns
mod SocketRuns
mod MemoryRuns
mod CpuRuns
mod CycleRuns
mod MlistRuns
mod KernelRuns
mod HashRuns
mod TerminalRuns
mod ConsoleRuns
mod StartRuns
mod DialogRuns
