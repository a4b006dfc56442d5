-- ===== src/Lib.antt =====
-- advancescan (amadvance/advancescan): a rom manager for MAME. The program reads a list of games
-- and scans directories of zip archives; it compares the roms that each game wants with the
-- files that the archives hold, and repairs the archives: it adds, renames and removes entries,
-- and moves what is wrong to other archives.
--
-- The parts and their files:
--   lib/endianrw.h   Endian. le_uint16_read and the other reads and writes, on lists of bytes
--                    with an offset.
--   strcov.c         Strcov. striwildcmp, strdec, strhex and strvhex.
--   file.cc          File. The functions on paths, and file_compare (same_name); File.Transfer has the
--                    functions that read, write, copy, move and remove whole files, on the file
--                    system of Zip.Archive, and disk_move of scan.cc, which calls them.
--   disk.cc          Disk. The hash of a disk, read and printed, and disk_sha1.
--   rom.cc, rom.h    Rom. class rom and its sets.
--   analyze.cc       Analyze. What an unknown file is taken for.
--   zip.cc, zip.h    Zip. Zip.Format has the constants, Zip.Stream the C streams, Zip.Entry the
--                    entry (zip_entry), with its two headers in Zip.Entry.Header (check_cent,
--                    load_cent, save_cent) and Zip.Entry.Local (check_local, load_local,
--                    save_local, compressed_read), and Zip.Archive the archive (zip): create,
--                    close, unload, erase, rename and insert there, open in
--                    Zip.Archive.Directory, load and reopen in Zip.Archive.Load, and save in
--                    Zip.Archive.Save.
--   ziprom.cc        Ziprom, an archive of roms, which uses Zip, and Ziparchive, the list of
--                    archives with its index.
--   game.cc          Game. What a game wants, what was found for it, and the removal of roms
--                    that its parent has.
--   lib/readinfo.c   Readinfo. The scanner of the information files: info_token_get, with
--                    get_symbol and get_string, and info_skip_value.
--   gameinfo.cc      Gameinfo. load_info, over Readinfo: Gameinfo has the loop over fields that all
--                    four loops of load_info_internal are, and Gameinfo.Load the fields.
--   gamexml.cc       Gamexml. The functions process_*, which change the game, rom or disk that is being
--                    read; Gamexml.Table has CONV1, CONV2, CONV3 and identify, and Gamexml.Handlers
--                    start_handler, data_handler, end_handler and load_xml. Gamexml.Listing has
--                    documents, as trees, with the events and the games that they stand for, and
--                    Gamexml.Filling what they hold beside what the reader uses.
--   game.cc          Gamearchive. The loop of gamearchive::load that takes from each game what its
--                    ancestors have, on the games that Gameinfo or Gamexml reads;
--                    Gamearchive.Relations has the rest of gamearchive::load, which calls the two
--                    readers, and the functions over clones.
--   operatio.h       Operation. The flags of what the program is asked to do.
--   scan.cc          Scan. stat_rom_zip, which uses Ziprom's entries, Rom and Analyze; below it
--                    Scan.Add (rom_scan_add), Scan.Fix (rom_scan), Scan.RomAdd (rom_add),
--                    Scan.Sample (sample_stat, sample_scan; the samples of sample.h are names),
--                    Scan.DiskScan (disk_stat, disk_scan), Scan.Filter (filt), Scan.Move
--                    (rom_move, sample_move, unknown_scan) and Scan.Store, the save and unload at
--                    their ends. They use
--                    Ziprom, Ziparchive, Game and Operation.
--
-- An archive is also looked at as a map from names to contents, without the order of its entries:
-- Ziprom.View has the maps, and Ziprom.View.Pair what the calls on an archive and its reject
-- archive do to two of them.
--
-- How the code is modelled:
--   A call is a function into Result: a value, or how it fails: `invalid` for error_invalid,
--   `failed` for any other error, `aborted` for a failed assertion, and `overrun` where C++ reads
--   or writes outside of a buffer, or through an iterator of an erased entry, which the language
--   leaves undefined. Messages and log lines are left out. A method that changes an object returns the
--   changed one.
--   A name is a string of bytes; where the code compares names by strcasecmp, what follows a byte 0
--   does not count. A byte is a number below 256, and an unsigned wraps at 2 ^ 32 where the code can pass it. `|`
--   and `&` of flags are written by division, remainder and sum. Of endianrw.h the build without
--   USE_LSB is modelled.
--   The file system is the record System: the contents of the files, what stat, fopen, remove and
--   rename answer, and what a full disk does. stdio is buffered, so a full disk shows in two ways:
--   fwrite fails when more than `room` bytes are written to a file, and by fclose only the first
--   `disk_room` bytes of what fwrite took are on the disk; the code looks at what fwrite returns,
--   and not at what fclose returns. An Input is the content of a file with a
--   position, and an Output the bytes written so far with the room there is. zlib's crc32, the
--   time in the name of a temporary file, the command line's pedantic flag and the table of
--   known garbage are arguments.
--   expat is not modelled: the handlers are given the events that it reports, in order, and
--   load_xml how it ends. realloc is a test of the number of bytes.
--   A std::set is a list without two elements of the same key; its order is not modelled, but for
--   that of the games, which stand in the order of their names.
--
-- Fuel: cent_read enlarges its buffer from at least one byte by 4096 to at most 32768, so nine
-- rounds are given. The loop of zip::open passes at least one byte of the directory each round,
-- and has the directory's length plus one. The loop of zip::load passes one entry each round,
-- and has the number of entries plus one. The loop that counts the ones of a size has 32. The
-- loop over the ancestors of a game has its fuel as an argument, since it may not end, and so have
-- the functions that go down from a game to its sons, for the depth; the loops of info_skip_value and load_info_internal pass at least one character each round, and have
-- the length of what is left plus one. All other loops are structural.
--
-- Not modelled: what scan.cc prints, its passes over all sets (all_rom_scan and the others), its
-- reports and options; sample_move is the code of rom_move; token.cc, and gamediff.cc, which is
-- not built; the functions of file.cc on times and directories, diff.cc, the compression by zlib,
-- output, configuration and signals, and the copies of library functions (snprintf.c, getopt.c,
-- expat).
pub mod Base
pub mod Endian
pub mod Strcov
pub mod Readinfo
pub mod Gameinfo
pub mod Gamexml
pub mod Gamearchive
pub mod File
pub mod Rom
pub mod Operation
pub mod Analyze
pub mod Disk
pub mod Zip
pub mod Ziprom
pub mod Ziparchive
pub mod Scan
pub mod Game
mod Tests
