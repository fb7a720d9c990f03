-- ===== src/Lib.antt =====
-- libsysinfo: the readers of the Linux /proc file system.
--
-- The library turns text files of /proc into C++ objects. A ProcessInfo stands for one process:
-- it keeps the members read from each file, a flag for each file that says whether it is to be
-- read again, and getters that read the file if the flag is set. needUpdate sets all flags. The
-- usage of processor and files is computed as a difference to an old state, which a static map
-- keeps for each pid. A function reads /proc/cpuinfo into records, and the constructor of MMap
-- reads one mapping of smaps. processList makes a ProcessInfo for each directory of /proc, and
-- other functions read the tables of sockets. A ProcConnector is told by the kernel about the
-- events of processes, on a netlink socket, and calls the callbacks that were added, in a thread
-- of its own or in that of the caller.
--
-- How the code is modelled:
--   * Prelude: Booleans, integers (ℤ, to_u64, to_int) and results. An exception is a value; a
--     member function that may throw returns a result together with the object that it leaves.
--     Doubles are kept as the quotient or the sum that they round.
--   * Text: std::string as a list of bytes, getline (before, after, lines), std::stoi and
--     std::stol with their exceptions, std::to_string, and the extraction of an integer or a word
--     from a stream with its fail bit. to_string n recurs on n + 1 steps, which is enough for the
--     digits of n.
--   * Boost: regex_match, trim and split are the parameters of a record Boost; IsBoost states
--     what their documentation says. Boost.Groups has what follows for the groups of a match.
--     Boost.Reference is a concrete instance that meets the laws.
--   * ProcessInfo (src/processinfo.h, src/processinfo.cpp): State has the members and the
--     operating system, a record of functions at one moment; Life the constructors and
--     needUpdate; Stat readStat, with the fields of its line
--     by proc(5) in Stat.Line; Getters the getters over it; Io readIo; Status readStatus and
--     its getters; Links the command line, the symbolic links and wchan; Environ readEnviron; Tty
--     ttyNr; Fd readFd; Cgroup, Limits and Stack the readers that no getter calls; Smaps
--     readSmaps, which gives pieces of its file to the constructor of MMap; Usage and Usage.Cpu
--     the static map, updateIoReadUsage, updateIoWriteUsage and updateCPUUsage. Getters.Snapshot,
--     Stat.RoundTrip, Stat.Blank, Links.Cmdline, Environ.Kept, Io.RoundTrip, Status.Uids,
--     Status.Throws, Status.Vm, Usage.OldState, Usage.Total, Usage.Mixed, Usage.Clock with its children,
--     Usage.Cpu.Rate, Tty.Device, Fd.Kept, Cgroup.RoundTrip, Limits.Throws, Stack.RoundTrip,
--     Smaps.Blocks and Smaps.Empty hold the proofs.
--   * CpuInfo (src/sysinfo.h, src/sysinfo.cpp): readCPUInfo, getNbCPUs, getNbCores, with proofs
--     in Members, Count, Items and RoundTrip.
--   * MMap (src/mmap.h, src/mmap.cpp): the constructor, defineCategory, permissions and type,
--     with proofs in Attributes, Permissions and Offset.
--   * Network (src/sysinfo.h, src/sysinfo.cpp): getSocketUNIX and getSocketTCP over the content
--     of their tables. htonl and inet_ntoa are the parameters of a record Inet. Proofs in
--     Unnamed, Hex, Groups, Address, Address.Reversed, Row and Table.
--   * ProcessList (src/sysinfo.cpp): processListPid, processCount and processList over the
--     directory that Os lists, with proofs in Entries.
--   * ProcConnector (src/procconnector.h, src/procconnector.cpp): the system calls are the
--     parameters of a record Kernel, the constants of the system headers those of Headers. A
--     callback is a function on the rest of the program that may throw. listenBlock runs over the
--     list of what the calls of recv return, so its recursion is structural. Proofs in Calls,
--     Heard, Threads and Sockets.
--   * Tests: the theorems at concrete inputs.
--
-- The names of the source are kept in lower case: readStat is read_stat, m_vm_rss is the
-- constructor m_vm_rss of VmField, ioTotalUsage is io_total_usage. int has 32 bits, long and
-- unsigned long 64. What the source does not initialise is a parameter: `raw` of the
-- constructors, and Locals in updateCPUUsage. C++ leaves open which operand of the sum in
-- ioTotalUsage is evaluated first; here it is the left one.
--
-- The connector is read by two threads. A call of addCallback and one of processEvent are single
-- steps that do not overlap: the source takes no lock, and what two overlapping calls do is
-- undefined. The steps come in any order.
--
-- Not modelled: the order of the entries in an unordered_map, which is an association list here;
-- an iterator of a directory that throws in the middle of the directory (a directory is listed
-- whole, or not at all); the enumeration socket_state, whose values stay numbers; copies of a
-- ProcConnector. The member m_tracerpid, which nothing uses, is left out. operator<< and the
-- programs under tests/ print, and have no logic of their own.
pub mod Prelude
pub mod Text
pub mod Boost
pub mod MMap
pub mod CpuInfo
pub mod ProcessInfo
pub mod ProcConnector
pub mod Network
pub mod ProcessList
pub mod Tests
