-- ===== src/Lib.antt =====
-- opx-common-utils: the utilities that the components of a network switch share. This library
-- models the data structures and the number and byte code of the repository, and proves what they
-- do.
--
-- The parts stand beside each other; each source file is its own component, and a caller links the
-- ones it needs. The radical walk stands on two of them: its state is the table of the radix tree,
-- and its change list is a doubly linked list. The bit mask macros of inc/opx/std_bit_masks.h are
-- used by the error codes, and the bytes of the bit arrays are the memory in which the IP addresses
-- and the TLVs lie.
--
--   Prelude     shared names, Boolean tests, lists, signed integers
--   Bits        the bits of a number, masks and 32-bit words
--   BitMask     src/std_bit_masks.c and the bit array macros of inc/opx/std_bit_masks.h
--   ErrorCode   inc/opx/std_error_codes.h and inc/opx/std_error_ids.h
--   IntMapping  src/std_int_mapping_util.c
--   Ip          src/std_ip_utils.c and the macros of inc/opx/std_ip_utils.h
--   LinkedList  src/std_llist.c and inc/opx/std_llist.h
--   MergeSort   src/std_mergesort.c
--   Radical     src/std_radical.c: the change list of a radix tree and its walks
--   Radix       src/std_radix.c: the look ups of the radix tree, insertion, the versions
--   RbTree      src/std_rbtree.c: the table, the rotations, insertion, removal, look ups
--   Tree        the shape of a tree that nodes link, for RbTree and Radix
--   Tlv         inc/opx/std_tlv.h and inc/opx/std_tlv_internal.h
--
-- A definition has the name of the function without its prefix: `std_dll_insertafter` is
-- `LinkedList.insertafter`, `std_find_first_bit` is `BitMask.find_first_bit`, `STD_ERR_MK` is
-- `ErrorCode.err_mk`, `std_merge_sort` is `MergeSort.merge_sort`, `std_tlv_add` is `Tlv.tlv_add`.
-- The file of a component holds the translation of its code, and the files below it what is proved
-- of that code and, in Examples, runs of it. Of the red-black tree, Insert, Nearest, Remove and
-- Data hold code too, of the radix tree First, Insert and Version, and of Radical Walk.
--
-- Memory is explicit. An array of bytes is a function from addresses to bytes, and a write gives
-- another function. The nodes of the linked list are two such functions, for `dll_next` and
-- `dll_back`, and those of the red-black tree and of the radix tree one for each field, so that an
-- operation that writes through one pointer is seen through every other; the two end nodes of a
-- list head are nodes at addresses that the head holds. The sorted array is a function from indices
-- to elements, with the work array beside it.
--
-- Integers are natural numbers with their wrap-around written out, and `int` results are integers.
-- What `malloc` gives for the nodes of a radix tree is a parameter of its insertion. `memset`,
-- `memcmp`, `memcpy` and `htonl` do as the C library documents; the comparison of a list and of a
-- tree, the conversion of a radix key, the callback of a walk, and the comparison and the copy
-- callback of a sort are the caller's, and stand as parameters.
--
-- Loops are structural recursion on the rounds that are left where the code counts them. The walk
-- of `std_dll_insert` has fuel for the items of the list, the searches of a tree, its insertion and
-- the ways up in it fuel for its nodes, the comparison of two keys fuel for their bits, the loops
-- along a change list fuel for its heads, `std_tlv_find_next` fuel for the bytes of the buffer, the
-- merge sort fuel for its elements: a result is stated to be there, with that much fuel. An
-- `assert` that fails, a signed sum that overflows and a search that runs out of fuel give no
-- result.
--
-- Not modelled: the walks, the creation and the comparisons of the red-black tree, the removal and
-- the walks of the radix tree, time and select, strings, the C++ parts (events, sockets, thread
-- pool, configuration), and the wrappers of pthreads and of the operating system.
pub mod BitMask
pub mod Bits
pub mod ErrorCode
pub mod IntMapping
pub mod Ip
pub mod LinkedList
pub mod MergeSort
pub mod Prelude
pub mod Radical
pub mod Radix
pub mod RbTree
pub mod Tlv
pub mod Tree
