-- ===== src/Lib.antt =====
-- Verification library of the C programs under source/src/. The programs are small and stand
-- alone: what they share is the C library and the shape of their loops, and these are modelled
-- once.
--
-- Common: lists, options and tests over the native numbers (Common/Lists, Common/Tests), signed
-- integers (Common/Int), permutations (Common/Perm), and the results of a run (Common/Outcome): a
-- value, a trap for what C leaves undefined, and no_fuel for a loop that has used up its rounds.
--
-- Clib: what the programs use of the C library and of int. Clib/Int32 is int of 32 bits, with
-- wrap-around for + - * and a trap for a division by 0 or an overflowing one. Clib/Scan is sscanf
-- with "%d%n", as the C standard describes it; Clib/Scan/Laws and Clib/Scan/Decimal say what it
-- reads from a decimal numeral. Clib/Print is sprintf with "%d", and the like for long and
-- unsigned numbers; Clib/Print/Laws reads again what it prints, and Clib/Print/Short bounds its
-- length by the bytes that the number was read from. Clib/Bytes is strcpy and the text in an
-- array; Clib/Bytes/Filled is about a zeroed buffer that is written from its start.
--
-- DoubleStack: source/src/leetcode/double_stack_224.c, the calculator on two stacks.
-- DoubleStack/Stack is struct Stack with its operations (stack_init, stack_push, stack_pop,
-- stack_top, stack_is_empty, stack_is_full); DoubleStack/Machine is calculate, each of its loops
-- a function of the same guards, over any stack, so that it runs on the arrays of the source and
-- on the lists of the specification. A round of the main loop reads a token, and at most two
-- operators wait above the innermost open parenthesis, so calculate gives each loop three rounds
-- more than the text has bytes. DoubleStack/Main is stack_print and main. Expression is the
-- grammar of the inputs, with their text and their value, and Expression/Rounds counts the rounds
-- that a loop takes over such a text.
--
-- Postfix: source/src/leetcode/224.c, the calculator that writes postfix text first.
-- Postfix/Stack is the global stack (stack_init, stack_push, stack_pop, stack_top, is_empty,
-- stack_print); its globals are passed from call to call. Postfix/Translate is mtob and
-- Postfix/Evaluate is cal_bstr, each over an interface, Sink and Numbers, which the arrays of the
-- source and plain lists fill: Postfix/Translate/Simulate and Postfix/Evaluate/Bounded relate the
-- two. Postfix/Order is the postfix order of an expression, apart from the code. mtob has three
-- rounds more than the text has bytes for each loop, as in DoubleStack, and cal_bstr one more.
-- Postfix/Calculate is calculate and main.
--
-- KGroup: source/src/leetcode/25-reverse-nodes-in-k-group.c, the reversal of a linked list in
-- groups (insert, removenode, get_size, do_revert, get_node_by_index, reverseKGroup).
-- KGroup/Create is create_list, walk_a_list and the cases of main. KGroup/Heap is the memory:
-- nodes at addresses, read and written by commands that trap at NULL. The loops over a list take
-- a number of rounds, and more rounds than nodes are enough.
--
-- Palindrome: source/src/leetcode/5-longest-palindromic-substring.c (longestPalindrome). The
-- loops round a centre get two rounds more than the index of the centre, which is where the left
-- end stops them.
--
-- Median: source/src/leetcode/median-of-two-sorted-arrays.c (findMedianSortedArrays): a merge of
-- two arrays, one round for each element. Sorted says what a sorted list is and what a merge of
-- two is worth.
--
-- Substring: source/src/leetcode/3-longest-substring-without-repeating-characters.c
-- (lengthOfLongestSubstring). The table is a list of 256 numbers, and char is signed.
--
-- Words: source/src/leetcode/151-reverse-words-in-a-string.c (reverseWords). Words/Split says
-- what the words of a text are, Words/Scan is about the two loops that find the last one,
-- Clib/Bytes/Filled about the array of the result. A round of the main loop takes a byte or more
-- off the text, so one round more than its bytes is enough.
--
-- Ring: source/src/linux_list/linux_list.c, the circular list with two links (INIT_LIST_HEAD,
-- __list_add as list_add_between, list_add, the walks, and the loop of main as add_all). The
-- memory has one function for each field, by address; container_of subtracts the offset of the
-- field. Ring/Main has the other two walks and main. A walk takes one round more than there are
-- nodes.
--
-- Pairs: source/src/leetcode/kSmallestPairs.c (cpmSum, kSmallestPairs). qsort is a parameter:
-- Clib/Qsort is what the C standard says of it, and Clib/Qsort/Insertion a sort that is so.
--
-- Frequency: source/src/leetcode/451-sort-frequency.c (compare, frequencySort), over the same
-- parameter qsort. The pool is a list of 127 places, and char is signed.
--
-- Scanner: source/src/leetcode/sscanf.c, the tokens of an expression, one to a line. A round
-- takes a byte or more, and the last one finds the end.
--
-- SumK: source/src/trust/src/sumk.c, the pairs of an array with a sum of at most k, over the
-- parameter qsort. SumK/Pairs counts them apart from the code.
--
-- Comparators: source/src/leetcode/qsort.c, whose main puts words and numbers in order, over the
-- parameter qsort. Clib/Strcmp is strcmp with its order, and Clib/Qsort/Difference the order of a
-- comparison that subtracts.
--
-- Tokens: source/src/leetcode/as.c, the loop of main over any text. A round takes a byte or more,
-- and the last one finds the end, so one round more than the text has bytes is enough.
--
-- Fishing: get_mem of source/src/fishing/fishing.c, for a block of any size. Fishing/Log is the
-- entry and the exit of the module, with what they log, and source/src/fishing/public_code.c.
--
-- Tun: tun_alloc of source/src/tap_virtual_net/create_tap.c and of
-- source/src/virtual_net/create_tun.c, which differ in a flag. The system calls are a parameter,
-- a record Kernel, and Tun/Laws states what their manual pages promise. Tun/Main is main of both;
-- its loop of reads is given a number of rounds, and ends when a read fails.
--
-- Rlimit: main of source/src/getrlimit/getrlimit.c, and in Rlimit/GetSet main of get_set_limit.c;
-- prlimit and getrlimit are parameters, and Rlimit/Laws states what the manual page of prlimit
-- promises.
--
-- MemLimit: main of source/src/cgroup_memory/mem-limit.c; malloc and memset of a block are
-- parameters, since the system may kill a process that touches memory which it was granted; the
-- loop that sleeps without end and the kill are results of their own.
--
-- Threads: source/src/getrlimit/threads.c, main and PrintHello as a relation of steps, which any
-- thread may take next; Threads/Laws/Ends counts the steps.
--
-- Clock: main of source/src/rdtsc/clock_gettime.c; clock_gettime and sleep are parameters, and
-- Clock/Laws states what is asked of them.
--
-- Cycles: source/src/rdtsc/ceph_cycle.c, google_benchmark_cycle.c and rdtsc.c; the registers are
-- a parameter, and to print a number of 64 bits as a long of 32 is a trap. Clib/Bits says that an
-- or of numbers that share no bit is their sum.
--
-- Products: source/src/instruction_set/float_mul.c, float_mul_neon.c and float_mul_asm_neon.c.
-- The floating types are a parameter; Clib/Int64 is long, with wrap-around.
--
-- Neon: source/src/instruction_set/neon_hello_world.c; the intrinsics are a parameter, and a read
-- outside the array that is printed is a trap.
--
-- Digest: main of source/src/sha256/sha1.c and sha256.c; the functions of OpenSSL are parameters,
-- and what they write is put into the arrays of the programs.
--
-- Strings: source/src/leetcode/strcat.c, snprintf.c, sprintf_num.c and negative.c. Counter:
-- source/src/trust/src/a.c and b.c. Shared: the functions of source/src/share_lib/ and
-- source/src/static_lib/.
--
-- What a program prints, and its main function, stand in a module Main of the program:
-- Palindrome/Main, Median/Main, Words/Main, Pairs/Main and Frequency/Main.
--
-- Not modelled: the messages of DoubleStack and of the programs with system calls, but for their
-- numbers, main of Substring, which prints nothing, free and the failure of malloc, the headers
-- of the Linux kernel, and a few programs that print constants or call a library:
-- clib_offsetof.c, main.c, two_demision_array.c and define_pointer.c of source/src/trust/src/,
-- char_limits.c and list_interface.c, and the programs of source/src/explore_kernel/, which print
-- offsets, sizes and addresses that the compiler chooses.
pub mod Common
pub mod Clib
pub mod Expression
pub mod Counter
pub mod Cycles
pub mod Digest
pub mod DoubleStack
pub mod Postfix
pub mod KGroup
pub mod Palindrome
pub mod Sorted
pub mod Median
pub mod MemLimit
pub mod Shared
pub mod Strings
pub mod Substring
pub mod Words
pub mod Tun
pub mod Products
pub mod Ring
pub mod Rlimit
pub mod Neon
pub mod Pairs
pub mod Scanner
pub mod Threads
pub mod Tokens
pub mod Frequency
pub mod Fishing
pub mod SumK
pub mod Clock
pub mod Comparators
