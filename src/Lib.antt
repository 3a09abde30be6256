-- ===== src/Lib.antt =====
-- AirSane: a front end that serves SANE scanners over eSCL, the protocol of AirPrint scanning.
--
-- A client posts scan settings, gets the address of a job, and asks for its next document until
-- there is none. The server finds the scanner and the job of a request, has the job begin a transfer,
-- and has it write the document into the response. The job drives a SANE session, hands each line to
-- an image encoder, and turns the statuses of SANE into its own state.
--
-- - Text: std::string as a list of bytes, with its searches.
-- - Dictionary: basic/dictionary.cpp, an insertion-ordered list of pairs.
-- - Url: basic/url.cpp, the constructor and `print`.
-- - Uuid: basic/uuid.cpp, making and printing a uuid.
-- - ImageEncoder: imageformats/imageencoder.cpp, the base class of the encoders. The virtual
--   functions of a subclass are a record of functions (Hooks), and an exception is an outcome.
-- - PdfEncoder: imageformats/pdfencoder.cpp, the encoder of PDF documents as such a record: the
--   pages, the object table and the cross references (PdfEncoder.Objects, PdfEncoder.Xref), and the
--   strings (PdfEncoder.Escapes). PdfText has the texts that need no encoder.
-- - PngEncoder: imageformats/pngencoder.cpp, the encoder that hands its lines to libpng.
-- - Sane: the C interface of SANE, a parameter of the model, and sanecpp/sanecpp.cpp: the session, and
--   the count of the users of SANE (Sane.Library).
-- - OptionSet: sanecpp/sanecpp.cpp, the options of a device, and OptionSet.Words those of numbers.
-- - ScanJob: server/scanjob.cpp. ScanJob.Status has `updateStatus`, `beginTransfer` and `cancel`,
--   ScanJob.Transfer has `finishTransfer`, ScanJob.Pixels what it does to a line, and ScanJob.Setup
--   has `init`, which sets a job up from the settings of a scan.
-- - Scanner: server/scanner.cpp. The map of jobs, the status documents (Scanner.Status), the
--   capabilities (Scanner.Capabilities) and the names of sources and modes (Scanner.Names). What
--   `init2` reads from the options of the device is in Scanner.Init, with the sources in
--   Scanner.Init.Sources and the resolutions in Scanner.Resolutions; Scanner.FreeNames has the stable
--   name, and the name that the server publishes.
-- - Http: web/httpserver.cpp, the headers of a response and how it is sent; Http.Request has the
--   reading of a request, Http.Chunks the chunked stream, and Http.Serving `handleRequest`.
-- - WebPage: web/webpage.cpp and web/errorpage.cpp, elements, pages and the page of an error.
-- - Server: server/server.cpp, from the uri of a request to the operation on a job. Server.CommandLine
--   has the options of the command line, Server.Startup the way from the devices to the scanners of
--   the server, with their addresses and what is published of them. Server.Connections joins it to
--   Http.Serving.
-- - WorkerThread: basic/workerthread.cpp, the thread that executes the calls of a job, as a step
--   relation over the thread and any number of callers.
-- - AccessFile: web/accessfile.cpp, from the lines of the file to the verdict on an address.
-- - OptionsFile: server/optionsfile.cpp, from the lines of the file to the options of a scanner.
--
-- A function that changes an object takes its record and gives back the new one, with the world of
-- the scanner where it calls SANE. Strings are lists of bytes. Numbers of type int that are not
-- negative are natural numbers.
--
-- The loops that SANE drives run on fuel. `session::read`, the loops over the lines and images of a
-- transfer and the sheets of `updateStatus` take one unit each for a call; what is left to be read
-- from a device with finitely much data (ScanJob.Reading) bounds how much they need.
--
-- `handleRequest` checks the address (AccessFile), reads the request (Http.Request) and leaves it to
-- a handler, which Server is one of (Server.Connections); what the handler leaves open is answered
-- with an error page.
-- OptionSet has a C interface of its own, `Device`, whose world holds the options of one open device;
-- pointers to descriptors are read in that world, since a write may change what they point to. The
-- loop over the options takes a unit of fuel for each; the search for a name takes one for each
-- candidate, and there are fewer names in use than candidates; the loop over the resolutions doubles
-- its number until it is past the maximum. The sessions of Sane keep their own world, in which the
-- writes of `openSession` are the parameter `configure`.
--
-- The sizes of chunks have sixteen digits, since a size has 64 bits.
--
-- Parameters: the C interface of SANE with the state of the backend, the clock, and what
-- `openSession` writes to the options of the device; the streams and the subclasses of the
-- encoder but PdfEncoder and PngEncoder; doubles and floats, and the output of numbers through the C++ streams;
-- inet_pton, getifaddrs, atoi, strtod, strtol and regular expressions but one. A start or a read on a
-- null handle, a shift by too many bits and an exception that escapes are a crash; what stands in
-- memory behind a line is a parameter. But for WorkerThread, threads are not
-- modelled: the operations of a job follow one another, as its worker thread has them, and `cancel`
-- stands between two of them. What createJob calls to set a new job up is a parameter that returns;
-- ScanJob.Setup has that function, with the settings for which it does not return.
--
-- Not modelled: opening files and the log; the loop of the server that accepts connections, with its
-- sockets and threads; libpng, and libjpeg with the encoder that calls it; avahi, libusb and the
-- notification of changes; the help text; the two pages of the web interface; the printing of
-- options, and the conversions between doubles and texts.
mod Prelude
pub mod Text
pub mod Dictionary
pub mod Url
pub mod Uuid
pub mod ImageEncoder
pub mod PdfText
pub mod PdfEncoder
pub mod PngEncoder
pub mod Sane
pub mod ScanJob
pub mod OptionSet
pub mod Scanner
pub mod Http
pub mod WebPage
pub mod Server
pub mod WorkerThread
pub mod AccessFile
pub mod OptionsFile
pub mod Tests
